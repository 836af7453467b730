-- ===== src/UniqueId/Tests.antt =====
-- The theorem about infra/uniqueid/sonyflake.go at concrete data.
use dt_go.Base.{ℕ, ◌+◌, ◌*◌, ◌≡◌, refl, Option, none, some, List, [], ◌∷◌}
use dt_go.UniqueId.{
  Sonyflake, Address, SonyflakerImpl, Text, set_pod_ip, has_separator, begin_request,
}

-- Ids of a time, a sequence number and a machine, as sonyflake makes them.
abbrev counting : Sonyflake
counting = record {
  Generator = ℕ × ℕ;
  new_sonyflake = λ m. some (m, 0);
  next_id = λ g now. (some (now * 16777216 + g.1 * 65536 + g.0), (g.0, g.1 + 1));
}

-- 10.0.x.y as its bytes, and nothing else.
abbrev parse : Text → Option Address
parse [] = none
parse (x ∷ []) = none
parse (x ∷ y ∷ rest) = some (record { byte14 = x; byte15 = y })

abbrev pod : SonyflakerImpl
pod = record { pod_ip = 1 ∷ 2 ∷ 46 ∷ [] }

abbrev other_pod : SonyflakerImpl
other_pod = record { pod_ip = 1 ∷ 2 ∷ 46 ∷ 46 ∷ [] }

abbrev calls : List (SonyflakerImpl × ℕ)
calls = (pod, 9) ∷ (pod, 9) ∷ (other_pod, 9) ∷ []

set_twice :
    set_pod_ip (7 ∷ 8 ∷ []) (set_pod_ip (1 ∷ 2 ∷ 46 ∷ []) (begin_request (3 ∷ []) [] other_pod))
    ≡ pod
unfolding set_pod_ip has_separator begin_request
set_twice = refl
