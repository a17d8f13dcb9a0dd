-- ===== src/Kit.antt =====
-- The components with behaviour of mobile/packages/ui/src/components: Button.tsx, SearchField.tsx,
-- Rating.tsx, ErrorState.tsx and Avatar.tsx, and the tab bar of the customer app,
-- mobile/apps/customer/src/components/custom-tab-bar.tsx. Sizes, colours and animations are left out.
pub mod Laws
use Prim.Native.String
use Prim.Native.String.{◌++◌ as text_append}
use sethu_care.Prelude.{
  ℕ, zero, suc, ◌+◌, ◌-◌, ◌%◌, ◌≡◌, refl, Bool, true, false, not, ◌&&◌, ◌||◌, String, Option, none,
  some, List, [], ◌∷◌, map, find, take, length, str_eq, leb, ltb, ◌==◌, if◌then◌else◌,
}
use sethu_care.Text.{is_truthy, or_empty, is_blank, trim}

pub data Variant : Type 0 where
  primary secondary ghost destructive : Variant

-- The props of `Button`; `disabled` and `loading` may be missing.
pub record ButtonProps : Type 0 where
  pub label : String
  pub icon : Option String
  pub variant : Option Variant
  pub disabled : Option Bool
  pub loading : Option Bool
  pub accessibility_label : Option String

pub record ButtonView : Type 0 where
  pub spoken : String
  pub disabled : Bool
  pub busy : Bool
  pub icon : Option String
  pub tone : String
  pub text : String
  pub has_shadow : Bool

abbrev pub is_set : Option Bool → Bool
is_set none = false
is_set (some b) = b

abbrev pub label_tone : Variant → String
label_tone primary = "inverse"
label_tone secondary = "default"
label_tone ghost = "primary"
label_tone destructive = "inverse"

abbrev has_elevation : Variant → Bool
has_elevation primary = true
has_elevation destructive = true
has_elevation _ = false

abbrev resolved : Option Variant → Variant
resolved none = primary
resolved (some v) = v

abbrev or_label : Option String → String → String
or_label none label = label
or_label (some t) label = t

unfoldable pub is_disabled : ButtonProps → Bool
is_disabled p = is_set p.disabled || is_set p.loading

-- `Button`.
unfoldable pub button : ButtonProps → ButtonView
unfolding is_disabled
button p = record {
  spoken = or_label p.accessibility_label p.label;
  disabled = is_disabled p;
  busy = is_set p.loading;
  icon = if is_truthy p.icon && not (is_set p.loading) then p.icon else none;
  tone = label_tone (resolved p.variant);
  text = if is_set p.loading then "…" else p.label;
  has_shadow = if is_disabled p then false else has_elevation (resolved p.variant);
}

-- A press: how often `onPress` is called.
unfoldable pub press : ButtonProps → ℕ
unfolding is_disabled
press p = if is_disabled p then 0 else 1

-- The state of `SearchField`.
pub record SearchField : Type 0 where
  pub focused : Bool
  pub index : ℕ

abbrev pub blurred : SearchField
blurred = record { focused = false; index = 0 }

abbrev list_of : Option (List String) → List String
list_of none = []
list_of (some ts) = ts

unfoldable pub is_rotating : Option (List String) → Option String → SearchField → Bool
is_rotating placeholders value s =
    not (length (list_of placeholders) == 0) && (not s.focused && not (is_truthy value))

pub data FieldEvent : Type 0 where
  focus blur tick : FieldEvent

-- One event; the interval ticks only while the prompts rotate.
unfoldable pub field_step :
    Option (List String) → Option String → SearchField → FieldEvent → SearchField
field_step placeholders value s focus = record s { focused = true }
field_step placeholders value s blur = record s { focused = false }
field_step placeholders value s tick =
    if is_rotating placeholders value s
    then record s { index = (s.index + 1) % length (list_of placeholders) }
    else s

pub field_run : Option (List String) → SearchField → List (Option String × FieldEvent) → SearchField
field_run placeholders s [] = s
field_run placeholders s ((value, e) ∷ es) =
    field_run placeholders (field_step placeholders value s e) es

abbrev pub nth : ℕ → List String → Option String
nth n [] = none
nth zero (t ∷ ts) = some t
nth (suc n) (t ∷ ts) = nth n ts

-- The placeholder of the input, and the rolling prompt over it.
unfoldable pub search_field :
    Option (List String)
    → (value placeholder : Option String) → SearchField
    → Option String × Option (Option String)
search_field placeholders value placeholder s = (
  if is_rotating placeholders value s then some "" else placeholder,
  if is_rotating placeholders value s then some (nth s.index (list_of placeholders)) else none,
)

-- The stars of `Rating` from a position on: whether each is filled, and what its press gives, where it
-- can be pressed.
unfoldable pub stars_from : ℕ → ℕ → (value : ℕ) → (is_interactive : Bool) → List (Bool × Option ℕ)
stars_from position zero value is_interactive = []
stars_from position (suc left) value is_interactive =
    (leb position value, if is_interactive then some position else none)
    ∷ stars_from (position + 1) left value is_interactive

-- `Rating`.
unfoldable pub rating : (value max : ℕ) → (read_only has_on_change : Bool) → List (Bool × Option ℕ)
rating value max read_only has_on_change = stars_from 1 max value (not read_only && has_on_change)

-- `ErrorState`: the art or the glyph, the title, and the button where there are both a label and an
-- action.
unfoldable pub error_state :
    (title : String)
    → (retry_label illustration : Option String) → (has_on_retry : Bool)
    → Option String × String × Option String
error_state title retry_label illustration has_on_retry = (
  if is_truthy illustration then illustration else none,
  title,
  if has_on_retry && is_truthy retry_label then retry_label else none,
)

-- The words of a trimmed text, and the first characters of the first two.
unfoldable pub words_from : (inside : Bool) → String → List String
words_from inside String.[] = []
words_from inside (String.◌∷◌ c t) =
    let outside = words_from false t in
    let more = words_from true t in
    if is_blank c then outside else if inside then more else String.◌∷◌ c String.[] ∷ more

abbrev join : (String → String) → List String → String
join upper [] = ""
join upper (t ∷ ts) = text_append (upper t) (join upper ts)

-- `initials`, on characters of one UTF-16 unit.
unfoldable pub initials : (upper : String → String) → String → String
unfolding words_from
initials upper name =
    let firsts = words_from false (trim name) in
    if length firsts == 0 then "•" else join upper (take 2 firsts)

-- The tab bar: a route of the navigator.
pub record TabRoute : Type 0 where
  pub key : String
  pub name : String

abbrev route_at : ℕ → List TabRoute → Option TabRoute
route_at n [] = none
route_at zero (r ∷ rs) = some r
route_at (suc n) (r ∷ rs) = route_at n rs

abbrev is_named : Option TabRoute → String → Bool
is_named none name = false
is_named (some r) name = str_eq r.name name

abbrev pub label_for : String → String
label_for name =
    if str_eq name "index"
    then "nav.home"
    else if str_eq name "bookings"
    then "nav.bookings"
    else if str_eq name "offers"
    then "nav.offers"
    else "nav.profile"

-- `TAB_ICON[name] ?? "home"`.
abbrev pub tab_icon : String → String
tab_icon name =
    if str_eq name "bookings"
    then "bookings"
    else if str_eq name "offers"
    then "tag"
    else if str_eq name "account"
    then "account"
    else "home"

pub record Tab : Type 0 where
  pub target : String
  pub route : String
  pub focused : Bool
  pub icon : String
  pub label : String

abbrev pub tab_of : List TabRoute → ℕ → String → Option TabRoute → Option Tab
tab_of routes index name none = none
tab_of routes index name (some r) = some record {
  target = r.key;
  route = r.name;
  focused = is_named (route_at index routes) name;
  icon = tab_icon name;
  label = label_for name;
}

-- `renderTab`: none is the empty place.
unfoldable pub render_tab : List TabRoute → ℕ → String → Option Tab
render_tab routes index name = tab_of routes index name (find (λ r. str_eq r.name name) routes)

-- The bar: two tabs, the button that leads to the categories, two tabs.
unfoldable pub tab_bar : List TabRoute → ℕ → List (Option Tab) × String × List (Option Tab)
unfolding render_tab
tab_bar routes index = (
  render_tab routes index "index" ∷ render_tab routes index "bookings" ∷ [],
  "/categories",
  render_tab routes index "offers" ∷ render_tab routes index "account" ∷ [],
)

-- `onPress` of a tab: the event that is emitted, and where it navigates, unless that was prevented.
unfoldable pub press_tab : Tab → (prevented : Bool) → String × Option String
press_tab tab prevented =
    (tab.target, if not tab.focused && not prevented then some tab.route else none)
