-- ===== src/DomainEvent/Publish.antt =====
-- infra/domainevent/publish.go: a row object that notes the columns set on it. subscribe.go is the
-- same code over the other table.
use Prim.Native.String.{String, ◌++◌ as concat}
use Prim.Native.Char.{Char, code}
use dt_go.Base.{
  ℕ, Bool, true, false, Option, none, some, List, [], ◌∷◌, str_eq, ◌==◌, ◌&&◌, if◌then◌else◌,
}

-- The map from column names to values, as the list of its entries; a value is its text under `%v`.
abbrev pub Changes : Type 0
Changes = List (String × String)

pub record DomainEventPublish : Type 0 where
  pub changes : Option Changes
  pub id : ℕ
  pub topic : String
  pub content : String
  pub status : ℕ
  pub created : ℕ
  pub updated : ℕ

unfoldable pub assign : String → String → Changes → Changes
assign k v [] = (k, v) ∷ []
assign k v ((j, w) ∷ rest) = if str_eq j k then (k, v) ∷ rest else (j, w) ∷ assign k v rest

abbrev made : Option Changes → Changes
made none = []
made (some c) = c

unfoldable pub set_changes : String → String → DomainEventPublish → DomainEventPublish
unfolding assign
set_changes name value obj = record obj { changes = some (assign name value (made obj.changes)) }

-- `%v` of a number, which is strconv's: an argument of the setters that print one.
module _ (itoa : ℕ → String) where
  unfoldable pub set_topic : String → DomainEventPublish → DomainEventPublish
  set_topic topic obj = set_changes "topic" topic (record obj { topic = topic })

  unfoldable pub set_content : String → DomainEventPublish → DomainEventPublish
  set_content content obj = set_changes "content" content (record obj { content = content })

  unfoldable pub set_created : ℕ → DomainEventPublish → DomainEventPublish
  set_created created obj = set_changes "created" (itoa created) (record obj { created = created })

  unfoldable pub set_status : ℕ → DomainEventPublish → DomainEventPublish
  set_status status obj = set_changes "status" (itoa status) (record obj { status = status })

  unfoldable pub set_updated : ℕ → DomainEventPublish → DomainEventPublish
  set_updated updated obj = set_changes "updated" (itoa updated) (record obj { updated = updated })

-- One rendered column, with its comma: `fmt.Sprintf("%v=%v,", k, v)`.
abbrev pub column : String → String → String
column k v = concat k (concat "=" (concat v ","))

unfoldable pub render : Changes → String
render [] = ""
render ((k, v) ∷ rest) = concat (column k v) (render rest)

unfoldable pub is_comma : Char → Bool
is_comma c = code c == b','

unfoldable pub is_nil : String → Bool
is_nil String.[] = true
is_nil (String.◌∷◌ c s) = false

-- `strings.TrimRight(s, ",")`
unfoldable pub trim_right : String → String
unfolding is_comma is_nil
trim_right String.[] = String.[]
trim_right (String.◌∷◌ c s) =
    let rest = trim_right s in if is_comma c && is_nil rest then String.[] else String.◌∷◌ c rest

-- `range` is the order in which Go walks the map.
unfoldable pub take_changes : (Changes → Changes) → DomainEventPublish → String × DomainEventPublish
unfolding render trim_right
take_changes range obj = elim obj.changes [
  | none ↦ ("", obj)
  | some c ↦ (trim_right (render (range c)), record obj { changes = none })
]
