-- ===== src/UniqueId/Repeats.antt =====
-- When the ids of infra/uniqueid/sonyflake.go repeat.
use dt_go.Base.{ℕ, ◌+◌, ◌*◌, ◌≡◌, ap, ◌∙◌, Option, some, List, [], ◌∷◌, All}
use dt_go.UniqueId.{
  Sonyflake, Address, SonyflakerImpl, Text, machine_id, create, of_address, ask_new, next_id,
  next_ids,
}

module _ (f : Sonyflake) (parse_ip : Text → Option Address) where
  -- The address of the component has the same last two bytes.
  abbrev pub SameMachine : Address → SonyflakerImpl → Type 0
  SameMachine a s =
      (b : Address) × (parse_ip s.pod_ip ≡ some b) × (b.byte14 ≡ a.byte14) × (b.byte15 ≡ a.byte15)

  create-SameMachine :
      (a : Address) (s : SonyflakerImpl)
      → SameMachine a s
      → create f parse_ip s ≡ f.new_sonyflake (machine_id a)
  unfolding create of_address machine_id
  create-SameMachine a s (b, parsed, high, low) =
      ap (of_address f parse_ip) parsed
      ∙ ap (λ x. f.new_sonyflake (x * 256 + b.byte15)) high
      ∙ ap (λ x. f.new_sonyflake (a.byte14 * 256 + x)) low

  -- All calls of `NextID` at one time return the same, an id or an error, from however many
  -- components and processes they come, if the addresses of their pods agree in the last two bytes:
  -- each call makes a new generator and forgets what the last one has given.
  pub next_ids_repeat :
      (a : Address) (now : ℕ) (calls : List (SonyflakerImpl × ℕ)) (sf : Option f.Generator)
      → All (λ c. SameMachine a c.0 × (c.1 ≡ now)) calls
      → All
          (λ r. r ≡ (ask_new f parse_ip (f.new_sonyflake (machine_id a)) now).0)
          (next_ids f parse_ip calls sf)
  unfolding next_ids next_id
  next_ids_repeat a now [] sf same = tt
  next_ids_repeat a now ((s, t) ∷ calls) sf same = (
    ap (λ g. (ask_new f parse_ip g t).0) (create-SameMachine a s same.0.0)
        ∙ ap (λ x. (ask_new f parse_ip (f.new_sonyflake (machine_id a)) x).0) same.0.1,
    next_ids_repeat a now calls (next_id f parse_ip s t sf).1 same.1,
  )
