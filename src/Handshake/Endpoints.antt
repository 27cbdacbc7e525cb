-- ===== src/Handshake/Endpoints.antt =====
-- `find_endpoint_pair` of scripts/probe-mtk-handshake.py.
pub mod Chosen
use oukitel_rt7_linux.Prelude.{
  ℕ, ◌≡◌, Bool, List, [], ◌∷◌, ◌++◌, Option, none, some, Result, ok, err, ◌==◌, nat_eq,
  if◌then◌else◌,
}
use oukitel_rt7_linux.Python.Text.{text}
use oukitel_rt7_linux.Handshake.Usb.{
  Usb, Endpoint, Interface, Configuration, Exception, runtime_error,
}

pub record EndpointPair : Type 0 where
  pub interface_number : ℕ
  pub endpoint_in : Endpoint
  pub endpoint_out : Endpoint

module _ (usb : Usb) where
  -- The first endpoint of the interface with a direction.
  unfoldable pub find_directed : ℕ → Interface → Option Endpoint
  find_directed direction interface =
      usb.find_descriptor interface.endpoints
        (λ endpoint. usb.endpoint_direction endpoint.address == direction)

  abbrev pair_of : ℕ → Option Endpoint → Option Endpoint → Option EndpointPair
  pair_of number (some i) (some o) =
      some (record { interface_number = number; endpoint_in = i; endpoint_out = o })
  pair_of number _ _ = none

  -- The pair of one interface, if it has both directions.
  unfoldable pub interface_pair : Interface → Option EndpointPair
  interface_pair interface =
      pair_of interface.number (find_directed usb.endpoint_in interface)
        (find_directed usb.endpoint_out interface)

  -- `candidates[0]`, or the error.
  unfoldable pub first_candidate : List EndpointPair → Result Exception EndpointPair
  first_candidate [] =
      err (runtime_error (text "transport has no interface with both IN and OUT endpoints"))
  first_candidate (pair ∷ _) = ok pair

  -- The loop over the interfaces, with the candidates that were passed.
  unfoldable pub choose_pair : List EndpointPair → Configuration → Result Exception EndpointPair
  unfolding first_candidate
  choose_pair candidates [] = first_candidate candidates
  choose_pair candidates (interface ∷ rest) = elim (interface_pair interface) [
    | none ↦ choose_pair candidates rest
    | some pair ↦
        let more = choose_pair (candidates ++ pair ∷ []) rest in
        if interface.class_code == 0x0A then ok pair else more
  ]

  unfoldable pub find_endpoint_pair : Configuration → Result Exception EndpointPair
  unfolding choose_pair interface_pair find_directed
  find_endpoint_pair configuration = choose_pair [] configuration
