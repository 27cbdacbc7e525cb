-- ===== src/Tests/Bus.antt =====
-- A bus with one device of a boot transport, which answers each byte with its complement.
use oukitel_rt7_linux.Prelude.{
  ℕ, ◌+◌, ◌≡◌, Bool, true, false, List, [], ◌∷◌, Option, none, some, ok, leb, All, arith, ◌==◌,
  nat_eq, if◌then◌else◌, Bool-cases, inl, inr,
}
use oukitel_rt7_linux.Python.Bytes.{Bytes}
use oukitel_rt7_linux.Handshake.Usb.{
  Usb, Endpoint, Interface, Configuration, Device, World, IsLawful, IsTimed, Member, first, later,
}
use oukitel_rt7_linux.Handshake.Endpoints.{EndpointPair}
use oukitel_rt7_linux.Handshake.Sync.{complement}

abbrev pub device : Device
device = record { id_vendor = 0x0E8D; id_product = 0x2000; device_class = 2; bus = 1; address = 4 }

abbrev pub inward : Endpoint
inward = record { address = 0x81; attributes = 2 }

abbrev pub outward : Endpoint
outward = record { address = 0x01; attributes = 2 }

abbrev pub data_interface : Interface
data_interface = record {
  number = 1;
  class_code = 0x0A;
  subclass = 0;
  protocol = 0;
  endpoints = outward ∷ inward ∷ [];
}

abbrev pub configuration : Configuration
configuration =
    record { number = 0; class_code = 2; subclass = 2; protocol = 1; endpoints = [] }
    ∷ data_interface
    ∷ []

abbrev pub pair : EndpointPair
pair = record { interface_number = 1; endpoint_in = inward; endpoint_out = outward }

unfoldable pub search_endpoint : List Endpoint → (Endpoint → Bool) → Option Endpoint
search_endpoint [] test = none
search_endpoint (e ∷ es) test =
    let rest = search_endpoint es test in if test e then some e else rest

abbrev keep_byte : Bytes → ℕ → ℕ
keep_byte [] last = last
keep_byte (b ∷ _) last = b

-- The byte that was last written, and the clock.
abbrev pub State : Type 0
State = ℕ × ℕ

abbrev found : ℕ → List Device
found vendor = if vendor == 0x0E8D then device ∷ [] else []

-- An enumeration takes two ticks.
abbrev pub usb : Usb
usb = record {
  Bus = State;
  find = λ vendor s. (ok (found vendor), (s.0, s.1 + 2));
  get_active_configuration = λ _ s. (ok configuration, s);
  set_configuration = λ _ s. (ok tt, s);
  is_kernel_driver_active = λ _ _ s. (ok false, s);
  detach_kernel_driver = λ _ _ s. (ok tt, s);
  claim_interface = λ _ _ s. (ok tt, s);
  ctrl_transfer = λ _ _ _ _ _ _ s. (ok 0, s);
  write = λ _ bytes s. (ok 1, (keep_byte bytes s.0, s.1));
  read = λ _ _ s. (ok (complement s.0 ∷ []), s);
  find_descriptor = search_endpoint;
  endpoint_direction = λ address. if leb 0x80 address then 0x80 else 0;
  endpoint_in = 0x80;
  endpoint_out = 0;
  monotonic = λ s. s.1;
  sleep = λ interval s. (s.0, s.1 + interval);
}

abbrev pub world : World State
world = record { bus = (0, 100); trace = []; printed = [] }

search_some :
    (es : List Endpoint) (test : Endpoint → Bool) (e : Endpoint)
    → search_endpoint es test ≡ some e
    → (test e ≡ true) × Member e es
unfolding search_endpoint
search_some [] test e h = cc
search_some (x ∷ es) test e h = elim (Bool-cases (test x)) [
  | inl t ↦ let same : x ≡ e = ground arith in rw (← same) (t, first)
  | inr f ↦ let (t, m) = search_some es test e (rw f at h) in (t, later m)
]

search_none :
    (es : List Endpoint) (test : Endpoint → Bool)
    → search_endpoint es test ≡ none
    → All (λ e. ¬ (test e ≡ true)) es
unfolding search_endpoint
search_none [] test h = tt
search_none (x ∷ es) test h = elim (Bool-cases (test x)) [
  | inl t ↦ absurd (ground arith)
  | inr f ↦ (λ t. cc, search_none es test (rw f at h))
]

found_vendor : (vendor : ℕ) → All (λ (d : Device). d.id_vendor ≡ vendor) (found vendor)
found_vendor vendor = elim (Bool-cases (vendor == 0x0E8D)) [
  | inl e ↦ rw e (ground arith, tt)
  | inr e ↦ rw e tt
]

pub usb-IsLawful : IsLawful usb
usb-IsLawful = record { find_some = search_some; find_none = search_none }

pub usb-IsTimed : IsTimed usb
usb-IsTimed = record {
  find_vendor = λ vendor s. found_vendor vendor;
  find_later = λ vendor s. omega arith;
  sleep_later = λ interval s. omega arith;
}
