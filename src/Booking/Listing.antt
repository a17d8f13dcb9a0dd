-- ===== src/Booking/Listing.antt =====
-- The list of bookings as it is shown: mobile/apps/customer/src/app/(tabs)/bookings/index.tsx. What
-- `formatSchedule` makes of a time is a parameter, and the message of the error a text.
use sethu_care.Prelude.{
  Bool, true, false, ◌||◌, String, Option, none, some, List, [], ◌∷◌, map, if◌then◌else◌,
}
use sethu_care.Text.{if_truthy, is_truthy, or_empty, join_truthy}
use sethu_care.Storefront.{Illustration, error_illustration}
use sethu_care.Booking.{
  BookingResponse, Filter, all_bookings, active_bookings, completed_bookings, filtered, Label,
  StatusTone, list_label, tone_for,
}

-- What a query over the bookings gives.
pub record BookingsQuery : Type 0 where
  pub bookings : Option (List BookingResponse)
  pub is_loading : Bool
  pub is_error : Bool
  pub message : String

-- A row, and where a press leads.
pub record BookingRow : Type 0 where
  pub opens : Option String
  pub service_name : String
  pub status_label : Label
  pub status_tone : StatusTone
  pub place : Option String
  pub quoted_total : Option String

pub data ListBody : Type 0 where
  rows : List BookingRow → ListBody
  error_state : (illustration : Illustration) (title retry_label : String) → ListBody
  skeletons : ListBody
  empty_state : (illustration title : String) → ListBody

pub record ListView : Type 0 where
  -- The pills: their labels, and which one is the filter.
  pub pills : List (String × Bool)
  pub body : ListBody

abbrev pub filters : List Filter
filters = all_bookings ∷ active_bookings ∷ completed_bookings ∷ []

abbrev pub filter_label : Filter → String
filter_label all_bookings = "booking:filters.all"
filter_label active_bookings = "booking:filters.active"
filter_label completed_bookings = "booking:filters.completed"

abbrev pub same_filter : Filter → Filter → Bool
same_filter all_bookings all_bookings = true
same_filter active_bookings active_bookings = true
same_filter completed_bookings completed_bookings = true
same_filter _ _ = false

abbrev bookings_of : Option (List BookingResponse) → List BookingResponse
bookings_of none = []
bookings_of (some bs) = bs

-- The list is empty: why, from its query.
abbrev pub list_empty : (String → String) → BookingsQuery → ListBody
list_empty lower query =
    if query.is_error
    then error_state (error_illustration lower query.message) "common:errors.generic"
        "common:actions.retry"
    else if query.is_loading
    then skeletons
    else empty_state "emptyBookings" "booking:history.empty"

module _ (lower : String → String) (schedule : BookingResponse → String) where
  -- `renderItem`.
  unfoldable pub booking_row : BookingResponse → BookingRow
  unfolding list_label tone_for join_truthy
  booking_row b = record {
    opens = if_truthy b.booking_id;
    service_name = or_empty b.service_name;
    status_label = list_label (or_empty b.state);
    status_tone = tone_for (or_empty b.state);
    place =
        if is_truthy (some (schedule b)) || is_truthy b.city
        then some (join_truthy " · " (some (schedule b) ∷ b.city ∷ []))
        else none;
    quoted_total = if_truthy b.quoted_total;
  }

  abbrev rows_or_empty : BookingsQuery → List BookingResponse → ListBody
  rows_or_empty query [] = list_empty lower query
  rows_or_empty query (b ∷ bs) = rows (map booking_row (b ∷ bs))

  -- `Bookings`.
  unfoldable pub bookings_page : BookingsQuery → Filter → ListView
  unfolding filtered booking_row
  bookings_page query filter = record {
    pills = map (λ f. (filter_label f, same_filter filter f)) filters;
    body =
        if query.is_loading || query.is_error
        then list_empty lower query
        else rows_or_empty query (filtered filter (bookings_of query.bookings));
  }
