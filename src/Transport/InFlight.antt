-- ===== src/Transport/InFlight.antt =====
-- The table of the requests in flight (`self.pending` of advisory_transport.py): one for each path,
-- on the known paths only.
use aos_vehicle_platform.Prelude.{
  ℕ, suc, ◌+◌, ◌≤◌, ◌<◌, String, ◌<>◌, ◌≡◌, refl, true, false, not, ◌||◌, List, [], ◌∷◌, arith,
  ◌==◌, string_eq, if◌then◌else◌, if-elim, contains, Result, ok, err, inl, inr, Bool-cases,
}
use aos_vehicle_platform.Prelude.Lists.{length}
use aos_vehicle_platform.Prelude.Dict.{Dict, lookup, insert, erase}
use aos_vehicle_platform.Python.{Library}
use aos_vehicle_platform.Transport.Producer.{
  is_request_path, is_availability_path, availability_paths,
}
use aos_vehicle_platform.Transport.Session.{
  Environment, Link, in_flight, after_send, send_set, set_value, response_timeout,
}

-- No path has two requests.
abbrev pub IsSingle : Dict String (String × ℕ) → Type 0
IsSingle [] = Unit
IsSingle ((id, (path, deadline)) ∷ rest) = (in_flight path rest ≡ false) × IsSingle rest

-- Each path is the request path of an endpoint, or the path of an availability.
abbrev pub IsKnown : Dict String (String × ℕ) → Type 0
IsKnown [] = Unit
IsKnown ((id, (path, deadline)) ∷ rest) =
    (is_request_path path || is_availability_path path ≡ true) × IsKnown rest

in_flight-insert :
    (q id path : String) (deadline : ℕ) (d : Dict String (String × ℕ))
    → in_flight q d ≡ false
    → path == q ≡ false
    → in_flight q (insert id (path, deadline) d) ≡ false
unfolding in_flight insert
in_flight-insert q id path deadline [] h n = ground arith
in_flight-insert q id path deadline ((i, (p, t)) ∷ rest) h n =
    ground (arith, in_flight-insert q id path deadline rest)

in_flight-erase :
    (q id : String) (d : Dict String (String × ℕ))
    → in_flight q d ≡ false
    → in_flight q (erase id d) ≡ false
unfolding in_flight erase
in_flight-erase q id [] h = refl
in_flight-erase q id ((i, (p, t)) ∷ rest) h = ground (arith, in_flight-erase q id rest)

insert-IsSingle :
    (id path : String) (deadline : ℕ) (d : Dict String (String × ℕ))
    → in_flight path d ≡ false
    → IsSingle d
    → IsSingle (insert id (path, deadline) d)
unfolding in_flight insert
insert-IsSingle id path deadline [] h s = (refl, tt)
insert-IsSingle id path deadline ((i, (p, t)) ∷ rest) h (a, s) = elim (Bool-cases (id == i)) [
  | inl same ↦ rw (same, insert) (ground arith, s)
  | inr other ↦
      rw (other, insert)
        (
          in_flight-insert p id path deadline rest a (ground arith),
          insert-IsSingle id path deadline rest (ground arith) s,
        )
]

pub erase-IsSingle :
    (id : String) (d : Dict String (String × ℕ)) → IsSingle d → IsSingle (erase id d)
unfolding erase
erase-IsSingle id [] s = tt
erase-IsSingle id ((i, (p, t)) ∷ rest) (a, s) =
    if-elim IsSingle (id == i) (erase-IsSingle id rest s)
      (in_flight-erase p id rest a, erase-IsSingle id rest s)

insert-IsKnown :
    (id path : String) (deadline : ℕ) (d : Dict String (String × ℕ))
    → is_request_path path || is_availability_path path ≡ true
    → IsKnown d
    → IsKnown (insert id (path, deadline) d)
unfolding insert
insert-IsKnown id path deadline [] h k = (h, tt)
insert-IsKnown id path deadline ((i, (p, t)) ∷ rest) h (a, k) =
    if-elim IsKnown (id == i) (h, k) (a, insert-IsKnown id path deadline rest h k)

pub erase-IsKnown : (id : String) (d : Dict String (String × ℕ)) → IsKnown d → IsKnown (erase id d)
unfolding erase
erase-IsKnown id [] k = tt
erase-IsKnown id ((i, (p, t)) ∷ rest) (a, k) =
    if-elim IsKnown (id == i) (erase-IsKnown id rest k) (a, erase-IsKnown id rest k)

abbrev pub IsSound : {E : Type 0} → Link E → Type 0
IsSound l = IsSingle l.pending × IsKnown l.pending

after_send-IsSound :
    {E : Type 0} (id : String) (l : Link E) (r : Result (Unit {0})) (e : E)
    → IsSound l
    → IsSound (after_send id l r e).1
unfolding after_send
after_send-IsSound id l (ok u) e s = s
after_send-IsSound id l (err x) e (s, k) =
    (erase-IsSingle id l.pending s, erase-IsKnown id l.pending k)

module _ (E : Environment) (py : Library) where
  send_set-IsSound :
      (path value : String) (l : Link E.State)
      → is_request_path path || is_availability_path path ≡ true
      → in_flight path l.pending ≡ false
      → IsSound l
      → IsSound (send_set E py path value l).1
  unfolding send_set
  send_set-IsSound path value l known free (s, k) =
      let (id, e₁) = E.uuid4 l.environment in
      let request_id = "vdp-advisory-" <> id in
      let deadline = (E.monotonic e₁).0 + response_timeout in
      after_send-IsSound request_id
        (record l { pending = insert request_id (path, deadline) l.pending }) _ _
        (
          insert-IsSingle request_id path deadline l.pending free s,
          insert-IsKnown request_id path deadline l.pending known k,
        )

  pub set_value-IsSound :
      (path value : String) (l : Link E.State) → IsSound l → IsSound (set_value E py path value l).1
  unfolding set_value
  set_value-IsSound path value l s =
      let Sound : Result (Unit {0}) × Link E.State → Type 0 = λ r. IsSound r.1 in
      elim (Bool-cases (is_request_path path || is_availability_path path)) [
        | inr unknown ↦ rw (unknown, set_value) s
        | inl known ↦ elim (Bool-cases (in_flight path l.pending)) [
          | inl busy ↦ rw (known, busy, set_value) (if-elim Sound (not l.attached) s s)
          | inr free ↦
              rw (known, free, set_value)
                (if-elim Sound (not l.attached) s (send_set-IsSound path value l known free s))
        ]
      ]

-- The requests on one path, and on any of these paths.
count : String → Dict String (String × ℕ) → ℕ
count q [] = 0
count q ((id, (path, deadline)) ∷ rest) = if path == q then suc (count q rest) else count q rest

counts : List String → Dict String (String × ℕ) → ℕ
unfolding count
counts [] d = 0
counts (q ∷ qs) d = count q d + counts qs d

count-of_free : (q : String) (d : Dict String (String × ℕ)) → in_flight q d ≡ false → count q d ≡ 0
unfolding count in_flight
count-of_free q [] h = refl
count-of_free q ((i, (p, t)) ∷ rest) h = ground (arith, count-of_free q rest)

count-of_single : (q : String) (d : Dict String (String × ℕ)) → IsSingle d → count q d ≤ 1
unfolding count in_flight
count-of_single q [] s = omega arith
count-of_single q ((i, (p, t)) ∷ rest) (a, s) =
    ground (arith, count-of_free q rest, count-of_single q rest s)

counts-of_single :
    (qs : List String) (d : Dict String (String × ℕ)) → IsSingle d → counts qs d ≤ length qs
unfolding counts
counts-of_single [] d s = omega arith
counts-of_single (q ∷ qs) d s = omega (arith, count-of_single q d s, counts-of_single qs d s)

counts-grow :
    (qs : List String) (i p : String) (t : ℕ) (d : Dict String (String × ℕ))
    → counts qs d ≤ counts qs ((i, (p, t)) ∷ d)
unfolding counts count
counts-grow [] i p t d = omega arith
counts-grow (q ∷ qs) i p t d = ground (arith, counts-grow qs i p t d)

counts-contains :
    (qs : List String) (i p : String) (t : ℕ) (d : Dict String (String × ℕ))
    → contains qs p ≡ true
    → counts qs d < counts qs ((i, (p, t)) ∷ d)
unfolding counts count contains
counts-contains [] i p t d h = absurd (ground arith)
counts-contains (q ∷ qs) i p t d h =
    ground (arith, counts-contains qs i p t d, counts-grow qs i p t d)

abbrev known_paths : List String
known_paths =
    "Vehicle.OEM.BrakeHealth.Advisory.Request" ∷ "Vehicle.OEM.TireHealth.Advisory.Request"
    ∷ availability_paths

contains-known :
    (p : String)
    → is_request_path p || is_availability_path p ≡ true
    → contains known_paths p ≡ true
unfolding is_request_path is_availability_path lookup contains
contains-known p h = ground arith

length-of_known : (d : Dict String (String × ℕ)) → IsKnown d → length d ≤ counts known_paths d
length-of_known [] k = omega arith
length-of_known ((i, (p, t)) ∷ rest) (a, k) =
    omega
      (arith, length-of_known rest k, counts-contains known_paths i p t rest (contains-known p a))

pub length-of_sound : (d : Dict String (String × ℕ)) → IsSingle d → IsKnown d → length d ≤ 4
length-of_sound d s k = omega (arith, length-of_known d k, counts-of_single known_paths d s)
