-- ===== src/Waitlist/Examples.antt =====
-- Two sign-ups of one email.
use msk_back.Base.{String, Option, none, some, List, []}
use msk_back.Waitlist.{Entry, Signup, signup}
use msk_back.Waitlist.OneEach.{OneEach, Reachable-OneEach, empty, then_step, signs_up}

abbrev as_is : String → String
as_is s = s

abbrev a_signup : Option String → Signup
a_signup name = record {
  email = " ann@x.org";
  first_name = name;
  last_name = none;
  role = none;
  property_count = some 2;
  unit_count = none;
  phone = none;
  source = some "home";
}

abbrev once : List Entry
once = (signup as_is 1 (a_signup none) []).1

abbrev twice : List Entry
twice = (signup as_is 2 (a_signup (some "Ann")) once).1

Reachable-OneEach_example : OneEach twice
Reachable-OneEach_example = Reachable-OneEach twice (
    then_step once twice (then_step [] once empty (signs_up as_is 1 (a_signup none) []))
      (signs_up as_is 2 (a_signup (some "Ann")) once))
