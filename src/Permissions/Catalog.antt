-- ===== src/Permissions/Catalog.antt =====
-- src/modules/permissions/permission-catalog.ts: the catalog and the roles' default permissions.
use msk_back.Base.{ℕ, String, Bool, not, Option, none, some, List, [], ◌∷◌, ◌++◌, map, filter, any}
use msk_back.Base.Text.{same_text}

pub data Role : Type 0 where
  web_guest receptionist staff supervisor supplier admin super_user : Role

pub record PermissionDef : Type 0 where
  pub code : String
  pub group : String
  pub label : String
  pub ordering : ℕ
  pub description : Option String

-- A row of the catalog without a description.
abbrev pub def : String → String → String → ℕ → PermissionDef
def code group label ordering = record {
  code = code;
  group = group;
  label = label;
  ordering = ordering;
  description = none;
}

abbrev pub described : PermissionDef → String → PermissionDef
described d text = record d { description = some text }

abbrev pub bookings_defs : List PermissionDef
bookings_defs =
    def "bookings.read" "Bookings" "View bookings" 0
    ∷ def "bookings.create" "Bookings" "Create bookings" 1
    ∷ def "bookings.update" "Bookings" "Edit bookings" 2
    ∷ def "bookings.cancel" "Bookings" "Cancel bookings" 3
    ∷ def "bookings.check-in" "Bookings" "Check in guests" 4
    ∷ def "bookings.check-out" "Bookings" "Check out guests" 5
    ∷ def "bookings.assign-room" "Bookings" "Assign or unassign rooms" 6
    ∷ described (def "bookings.move-dates" "Bookings" "Move dates on calendar (horizontal drag)" 7)
        "Drag a reservation to extend or shorten its dates on the reservations calendar."
    ∷ described (def "bookings.move-room" "Bookings" "Move to another room (vertical drag)" 8)
        "Drag a reservation to a different room row on the reservations calendar."
    ∷ def "bookings.delete" "Bookings" "Delete bookings" 9
    ∷ []

abbrev pub properties_defs : List PermissionDef
properties_defs =
    def "properties.read" "Properties" "View properties" 0
    ∷ def "properties.create" "Properties" "Create properties" 1
    ∷ def "properties.update" "Properties" "Edit properties" 2
    ∷ def "properties.publish" "Properties" "Publish / unpublish" 3
    ∷ def "properties.photos" "Properties" "Manage property photos" 4
    ∷ def "properties.delete" "Properties" "Delete / archive properties" 5
    ∷ []

abbrev pub rooms_defs : List PermissionDef
rooms_defs =
    def "rooms.read" "Rooms" "View rooms" 0
    ∷ def "rooms.create" "Rooms" "Create rooms" 1
    ∷ def "rooms.update" "Rooms" "Edit rooms" 2
    ∷ def "rooms.delete" "Rooms" "Delete rooms" 3
    ∷ []

abbrev pub room_types_defs : List PermissionDef
room_types_defs =
    def "room-types.read" "Room Types" "View room types" 0
    ∷ def "room-types.create" "Room Types" "Create room types" 1
    ∷ def "room-types.update" "Room Types" "Edit room types" 2
    ∷ def "room-types.delete" "Room Types" "Delete room types" 3
    ∷ []

abbrev pub pricing_availability_defs : List PermissionDef
pricing_availability_defs =
    def "availability.read" "Pricing & Availability" "View availability calendar" 0
    ∷ def "availability.update" "Pricing & Availability" "Edit availability" 1
    ∷ def "pricing.read" "Pricing & Availability" "View pricing" 2
    ∷ def "pricing.update" "Pricing & Availability" "Edit pricing" 3
    ∷ []

abbrev pub users_defs : List PermissionDef
users_defs =
    def "users.read" "Users" "View users" 0
    ∷ def "users.create" "Users" "Create users" 1
    ∷ def "users.update" "Users" "Edit users" 2
    ∷ def "users.assign-role" "Users" "Change user role" 3
    ∷ described (def "users.edit-permissions" "Users" "Edit role permissions & user overrides" 4)
        "Access the permissions matrix and per-user override editor."
    ∷ def "users.delete" "Users" "Delete users" 5
    ∷ []

abbrev pub careers_defs : List PermissionDef
careers_defs =
    def "careers.jobs.read" "Careers" "View job postings" 0
    ∷ def "careers.jobs.create" "Careers" "Create job postings" 1
    ∷ def "careers.jobs.update" "Careers" "Edit job postings" 2
    ∷ def "careers.jobs.delete" "Careers" "Delete job postings" 3
    ∷ def "careers.applications.read" "Careers" "View job applications" 4
    ∷ def "careers.applications.update" "Careers" "Update application status" 5
    ∷ []

abbrev pub inquiries_defs : List PermissionDef
inquiries_defs =
    def "inquiries.contact.read" "Inquiries" "View support inquiries" 0
    ∷ def "inquiries.contact.update" "Inquiries" "Respond to / status support inquiries" 1
    ∷ def "inquiries.partner.read" "Inquiries" "View partner inquiries" 2
    ∷ def "inquiries.partner.update" "Inquiries" "Update partner inquiry status" 3
    ∷ def "inquiries.newsletter.read" "Inquiries" "View newsletter subscribers" 4
    ∷ []

abbrev pub guestbook_defs : List PermissionDef
guestbook_defs =
    def "waitlist.read" "Guestbook" "View waitlist signups" 0
    ∷ def "waitlist.update" "Guestbook" "Add internal notes" 1
    ∷ def "waitlist.delete" "Guestbook" "Delete waitlist entries" 2
    ∷ []

abbrev pub content_defs : List PermissionDef
content_defs =
    def "content.site.read" "Content" "View site content" 0
    ∷ def "content.site.update" "Content" "Edit site content (text + images)" 1
    ∷ def "content.faqs.read" "Content" "View FAQs" 2
    ∷ def "content.faqs.create" "Content" "Create FAQs" 3
    ∷ def "content.faqs.update" "Content" "Edit FAQs" 4
    ∷ def "content.faqs.delete" "Content" "Delete FAQs" 5
    ∷ def "content.faqs.import-export" "Content" "Import / export FAQs (Excel)" 6
    ∷ def "content.house-rules.read" "Content" "View house rules" 7
    ∷ def "content.house-rules.update" "Content" "Edit house rules" 8
    ∷ def "content.testimonials.read" "Content" "View testimonials" 9
    ∷ def "content.testimonials.update" "Content" "Edit testimonials" 10
    ∷ def "content.expansion-cities.read" "Content" "View expansion cities" 11
    ∷ def "content.expansion-cities.update" "Content" "Edit expansion cities" 12
    ∷ def "content.testing-locations.read" "Content" "View testing locations" 13
    ∷ def "content.testing-locations.create" "Content" "Create testing locations" 14
    ∷ def "content.testing-locations.update" "Content" "Edit testing locations" 15
    ∷ def "content.testing-locations.delete" "Content" "Delete testing locations" 16
    ∷ []

abbrev pub finance_defs : List PermissionDef
finance_defs =
    def "finance.read" "Finance" "View finance dashboards" 0
    ∷ def "finance.update" "Finance" "Edit finance settings" 1
    ∷ []

abbrev pub permission_catalog : List PermissionDef
permission_catalog =
    bookings_defs ++ properties_defs ++ rooms_defs ++ room_types_defs ++ pricing_availability_defs
    ++ users_defs ++ careers_defs ++ inquiries_defs ++ guestbook_defs ++ content_defs
    ++ finance_defs

abbrev pub receptionist_permissions : List String
receptionist_permissions =
    "bookings.read" ∷ "bookings.create" ∷ "bookings.update" ∷ "bookings.cancel"
    ∷ "bookings.check-in" ∷ "bookings.check-out" ∷ "bookings.assign-room" ∷ "bookings.move-dates"
    ∷ "properties.read" ∷ "rooms.read" ∷ "room-types.read" ∷ "availability.read" ∷ "pricing.read"
    ∷ "users.read" ∷ "careers.applications.read" ∷ "careers.applications.update"
    ∷ "inquiries.contact.read" ∷ "inquiries.partner.read" ∷ "inquiries.newsletter.read"
    ∷ "waitlist.read" ∷ "content.site.read" ∷ "content.faqs.read" ∷ "content.house-rules.read"
    ∷ "content.testimonials.read" ∷ "content.expansion-cities.read"
    ∷ "content.testing-locations.read" ∷ []

abbrev pub admin_excluded : List String
admin_excluded =
    "properties.delete" ∷ "rooms.delete" ∷ "room-types.delete" ∷ "users.edit-permissions" ∷ []

abbrev pub mem : String → List String → Bool
mem code = any (λ c. same_text c code)

abbrev pub all_codes : List String
all_codes = map (λ d. d.code) permission_catalog

unfoldable pub default_permissions_for_role : Role → List String
default_permissions_for_role super_user = all_codes
default_permissions_for_role admin = filter (λ c. not (mem c admin_excluded)) all_codes
default_permissions_for_role receptionist = filter (λ c. mem c receptionist_permissions) all_codes
default_permissions_for_role _ = []
