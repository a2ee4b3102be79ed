-- ===== src/Lib.antt =====
-- The MSK backend: a NestJS service for a group of short-stay residences, with its state in a
-- PostgreSQL database (prisma/schema.prisma). This library models the services that decide about
-- stays, access and the records of the staff, and proves what they keep.
--
-- Parts, and the files that model them:
-- - Dates: the date helpers utcMidnight, enumerateDays and sameDay, which the availability and the
--   booking service both declare.
-- - Availability (src/modules/availability/availability.service.ts): Reserve has tryReserve and
--   release, Calendar the calendar rows and the blocks, Public what the website shows.
-- - Bookings (src/modules/bookings/bookings.service.ts): Create prices and reserves a stay through
--   Availability.Reserve and inserts the booking with its block; Lifecycle cancels, checks in and
--   checks out; Rooms assigns rooms and moves dates; CheckIn is the guest's wizard and CheckIn.Codes
--   its codes; CheckIn.Verify starts the wizard through the one-time codes of Auth.Otp; CheckOut is
--   the guest's check-out, and Guests the stays of a signed-in guest and the guests on them.
-- - Auth (src/modules/auth): Otp has the one-time codes, Tokens the refresh tokens, and Accounts the
--   service over them (auth.service.ts): SignIn, Secrets (resets and changes of a secret), SignUp and
--   Staff (registrations), Oauth (Google and Apple). Its state AuthDb has the codes and the tokens, so
--   that a handler calls the operations of Otp and Tokens on them.
-- - Permissions (src/modules/permissions and src/common/guards): Catalog is the catalog of
--   permissions, Permissions the service, Permissions.Guard the two guards.
-- - Staff (src/modules/leave and src/modules/attendance): leave requests and punches.
-- - Supply: Inventory (src/modules/inventory/inventory.service.ts) has the items and their movements,
--   Orders (src/modules/orders/orders.service.ts) the purchase orders and the suppliers' claim to them.
-- - Billing: Payments (src/modules/payments/payments.service.ts) has the payments and the provider's
--   events, Invoices (src/modules/invoices/invoices.service.ts) the invoices.
-- - Waitlist (src/modules/waitlist/waitlist.service.ts): the waiting list of the website.
-- - Base: tests on numbers and texts, tables as lists, integers, and the Action of a handler.
--
-- A function of the source has its name here in snake case; a record has the columns that the
-- handlers read or write. A handler is an Action: it takes the state to a result and the state after
-- it. The state comes back after a throw too, since what was written before it stays written.
--
-- Conventions. An id is a natural number, as ids are only compared; amounts are in cents; a date is
-- the number of milliseconds since 1970, so none is earlier. A table is the list of its rows, in an
-- order that stands for the order in which the database returns them where the query gives none. The
-- ids and the random values that new rows get, and the time, are arguments. Argon2, SHA-256 and the
-- parser of URLs are parameters, and so are the changes of case, the payment provider's API and the
-- check of its signatures. In Supply.Orders and Billing.Invoices the numbers of a request are
-- JavaScript's, its arithmetic and the rounding of a column are the parameter Base.Numbers, and a
-- column is in hundredths. What the database answers where it refuses a write for a reason that the
-- tables do not show is an argument of the operations that make bookings, check-ins, orders and
-- invoices. A message that the source puts
-- together from parts keeps the fixed one.
--
-- Bounds: the loop over the days of a stay runs on fuel, one more than the days between the two
-- midnights, so that the loop ends by its own condition. The draw of a check-in code tries six times,
-- as the source does.
--
-- Not modelled: emails, logs and the calls of Mews, which run beside the handlers and write none of
-- these tables; the order in which a list query sorts its rows, but for a guest's own stays; two
-- requests at the same time, since each handler here runs alone; and the other modules under
-- src/modules.
pub mod Base
pub mod Dates
pub mod Availability
pub mod Bookings
pub mod Auth
pub mod Permissions
pub mod Staff
pub mod Supply
pub mod Billing
pub mod Waitlist
