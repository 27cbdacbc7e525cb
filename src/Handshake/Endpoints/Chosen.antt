-- ===== src/Handshake/Endpoints/Chosen.antt =====
-- Which endpoint pair `find_endpoint_pair` chooses.
use oukitel_rt7_linux.Prelude.{
  ℕ, ◌≡◌, sym, ◌∙◌, All, All-append, All-weaken, List, [], ◌∷◌, ◌++◌, append-nil, append_assoc,
  none, some, ok, nat_beq, nat_beq_iff, nat_eq, if◌then◌else◌, arith, Option-cases, Bool-cases, inl,
  inr,
}
use oukitel_rt7_linux.Handshake.Usb.{
  Usb, Endpoint, Interface, Configuration, IsLawful, Member, first, later,
}
use oukitel_rt7_linux.Handshake.Endpoints.{
  EndpointPair, find_directed, interface_pair, first_candidate, choose_pair, find_endpoint_pair,
}

module _ (usb : Usb) where
  -- The pairs of all interfaces that have one, in order, and those of class 0x0A.
  pub candidates : Configuration → List EndpointPair
  candidates [] = []
  candidates (interface ∷ rest) = elim (interface_pair usb interface) [
    | none ↦ candidates rest
    | some pair ↦ pair ∷ candidates rest
  ]

  pub cdc_candidates : Configuration → List EndpointPair
  cdc_candidates [] = []
  cdc_candidates (interface ∷ rest) =
      if nat_beq interface.class_code 0x0A
      then elim (interface_pair usb interface) [
        | none ↦ cdc_candidates rest
        | some pair ↦ pair ∷ cdc_candidates rest
      ]
      else cdc_candidates rest

  choose_pair_lem :
      (passed : List EndpointPair) (configuration : Configuration)
      → choose_pair usb passed configuration
        ≡ first_candidate usb (cdc_candidates configuration ++ (passed ++ candidates configuration))
  unfolding choose_pair candidates cdc_candidates
  choose_pair_lem passed [] = rw (append-nil passed)
  choose_pair_lem passed (interface ∷ rest) = elim (Option-cases (interface_pair usb interface)) [
    | inl e ↦ ground (arith, e, choose_pair_lem passed rest)
    | inr (pair, e) ↦ ground (
      arith,
      e,
      choose_pair_lem (passed ++ pair ∷ []) rest,
      append_assoc passed (pair ∷ []) (candidates rest),
    )
  ]

  -- The choice is the first pair of an interface of class 0x0A, else the first pair of any
  -- interface, and an error only if no interface has both directions.
  pub find_endpoint_pair_lem :
      (configuration : Configuration)
      → find_endpoint_pair usb configuration
        ≡ first_candidate usb (cdc_candidates configuration ++ candidates configuration)
  unfolding find_endpoint_pair
  find_endpoint_pair_lem configuration = choose_pair_lem [] configuration

  -- An endpoint of the interface with a direction.
  pub record IsDirected (direction : ℕ) (interface : Interface) (endpoint : Endpoint) : Type 0 where
    pub member : Member endpoint interface.endpoints
    pub directed : usb.endpoint_direction endpoint.address ≡ direction

  pub record IsPairOf (configuration : Configuration) (pair : EndpointPair) : Type 0 where
    pub interface : Interface
    pub member : Member interface configuration
    pub number : pair.interface_number ≡ interface.number
    pub inward : IsDirected usb.endpoint_in interface pair.endpoint_in
    pub outward : IsDirected usb.endpoint_out interface pair.endpoint_out

  module _ (lawful : IsLawful usb) where
    find_directed-IsDirected :
        (direction : ℕ) (interface : Interface) (e : Endpoint)
        → find_directed usb direction interface ≡ some e
        → IsDirected direction interface e
    unfolding find_directed
    find_directed-IsDirected direction interface e h =
        let (fits, member) = lawful.find_some interface.endpoints _ e h in
        record { member = member; directed = (nat_beq_iff _ _).0 fits }

    interface_pair-IsPairOf :
        (rest : Configuration) (interface : Interface) (pair : EndpointPair)
        → interface_pair usb interface ≡ some pair
        → IsPairOf (interface ∷ rest) pair
    unfolding interface_pair
    interface_pair-IsPairOf rest interface pair h = record {
      interface = interface;
      member = first;
      number = ground arith;
      inward = find_directed-IsDirected usb.endpoint_in interface pair.endpoint_in (ground arith);
      outward =
          find_directed-IsDirected usb.endpoint_out interface pair.endpoint_out (ground arith);
    }

    IsPairOf-later :
        (rest : Configuration) (interface : Interface) (pair : EndpointPair)
        → IsPairOf rest pair
        → IsPairOf (interface ∷ rest) pair
    IsPairOf-later rest interface pair p = record {
      interface = p.interface;
      member = later p.member;
      number = p.number;
      inward = p.inward;
      outward = p.outward;
    }

    candidates-IsPairOf : (c : Configuration) → All (IsPairOf c) (candidates c)
    unfolding candidates
    candidates-IsPairOf [] = tt
    candidates-IsPairOf (interface ∷ rest) =
        let more =
          All-weaken (IsPairOf rest) (IsPairOf (interface ∷ rest)) (candidates rest)
            (IsPairOf-later rest interface) (candidates-IsPairOf rest) in
        elim (Option-cases (interface_pair usb interface)) [
          | inl e ↦ rw (e, All) more
          | inr (pair, e) ↦ rw (e, All) (interface_pair-IsPairOf rest interface pair e, more)
        ]

    cdc_candidates-IsPairOf : (c : Configuration) → All (IsPairOf c) (cdc_candidates c)
    unfolding cdc_candidates
    cdc_candidates-IsPairOf [] = tt
    cdc_candidates-IsPairOf (interface ∷ rest) =
        let more =
          All-weaken (IsPairOf rest) (IsPairOf (interface ∷ rest)) (cdc_candidates rest)
            (IsPairOf-later rest interface) (cdc_candidates-IsPairOf rest) in
        elim (Bool-cases (nat_beq interface.class_code 0x0A)) [
          | inr other ↦ rw other more
          | inl cdc ↦ rw cdc (elim (Option-cases (interface_pair usb interface)) [
            | inl e ↦ rw e more
            | inr (pair, e) ↦ rw e (interface_pair-IsPairOf rest interface pair e, more)
          ])
        ]

    first_candidate-All :
        (P : EndpointPair → Type 0) (pairs : List EndpointPair) (pair : EndpointPair)
        → All P pairs
        → first_candidate usb pairs ≡ ok pair
        → P pair
    unfolding first_candidate
    first_candidate-All P [] pair h e = cc
    first_candidate-All P (x ∷ xs) pair h e = let same : x ≡ pair = cc in rw same at h.0

    -- If `find_descriptor` keeps its documented contract, the pair that is chosen is one IN and one
    -- OUT endpoint of one interface of the configuration, with the number of that interface.
    pub find_endpoint_pair-IsPairOf :
        (configuration : Configuration) (pair : EndpointPair)
        → find_endpoint_pair usb configuration ≡ ok pair
        → IsPairOf configuration pair
    find_endpoint_pair-IsPairOf c pair h =
        first_candidate-All (IsPairOf c) (cdc_candidates c ++ candidates c) pair
          (All-append (IsPairOf c) (cdc_candidates c) (candidates c) (cdc_candidates-IsPairOf c)
            (candidates-IsPairOf c))
          (sym (find_endpoint_pair_lem c) ∙ h)
