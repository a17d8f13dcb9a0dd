-- ===== src/Examples.antt =====
-- The theorems at concrete inputs: bookings, payments, devices, screens and operations.
mod Codec
mod Bookings
mod Jobs
mod Payments
mod Devices
mod Screens
mod Operations
mod Amounts
mod Codes
mod Books
mod Pages
