-- ===== src/Dlm.antt =====
-- infra/dlm/distributed_lock.go: locks in redis, with a goroutine (the watchdog) that renews them.
-- A world holds the components of all processes, the running watchdogs, redis and the clock.
pub mod Store
pub mod Dogs
pub mod Entries
pub mod Watched
pub mod Uniform
pub mod Exclusion
pub mod Locks
pub mod Spins
pub mod Waits
mod Tests
use dt_go.Base.{
  ℕ, zero, suc, ◌+◌, ◌*◌, ◌/◌, Bool, true, false, not, ◌&&◌, Option, none, some, List, [], ◌∷◌,
  ◌==◌, leb, String, str_eq, if◌then◌else◌,
}
use dt_go.Base.Int.{ℤ, pos_part}
use dt_go.Dlm.Store.{Redis}

abbrev pub second : ℕ
second = 1_000_000_000

abbrev pub default_expiration : ℕ
default_expiration = 30

-- `nil_cancel` is the panic of a call through a `cancelFunc` that was never set.
pub data DlmError : Type 0 where
  redis_error lock_timeout spin_times_reached unlock_failed nil_cancel : DlmError

-- `cancelFunc` stops one watchdog of this component.
pub record DlmImpl : Type 0 where
  pub value : String
  pub expiration : ℕ
  pub cancel_func : Option ℕ

-- A running watchdog: the component that has started it, which of its goroutines it is, what it
-- renews, and when its ticker fires next.
pub record Watchdog : Type 0 where
  pub owner : ℕ
  pub id : ℕ
  pub key : String
  pub expiration : ℕ
  pub next : ℕ

-- Whether the answer of redis arrives. Where it does not, the command may have run all the same.
pub data Reply : Type 0 where
  arrives : Reply
  lost : Bool → Reply

unfoldable pub set_expiration : ℕ → DlmImpl → DlmImpl
set_expiration ex dlm = record dlm { expiration = ex }

-- `BeginRequest`, with the text of the time that becomes the value.
unfoldable pub begin_request : String → DlmImpl → DlmImpl
begin_request time_text dlm = record dlm {
  expiration = default_expiration * second;
  value = time_text;
}

unfoldable pub without_dog : ℕ → ℕ → List Watchdog → List Watchdog
without_dog i g [] = []
without_dog i g (d ∷ ds) =
    let rest = without_dog i g ds in if (d.owner == i) && (d.id == g) then rest else d ∷ rest

unfoldable pub without_owner : ℕ → List Watchdog → List Watchdog
without_owner i [] = []
without_owner i (d ∷ ds) = let rest = without_owner i ds in if d.owner == i then rest else d ∷ rest

-- No ticker is due.
unfoldable pub none_due : ℕ → List Watchdog → Bool
none_due now [] = true
none_due now (d ∷ ds) = let rest = none_due now ds in not (leb d.next now) && rest

-- The turn of a watchdog that is due, or not, with the others after it.
abbrev pub turn : Bool → Watchdog → List Watchdog → Option Watchdog × List Watchdog
turn true d ds = (some d, record d { next = d.next + d.expiration / 3 } ∷ ds)
turn false d ds = (none, d ∷ ds)

-- The n-th watchdog, if it is due, and the list with its ticker set to the next time.
unfoldable pub fire : ℕ → ℕ → List Watchdog → Option Watchdog × List Watchdog
fire now n [] = (none, [])
fire now zero (d ∷ ds) = turn (leb d.next now) d ds
fire now (suc n) (d ∷ ds) = let (fired, rest) = fire now n ds in (fired, d ∷ rest)

abbrev pub same_value : Option String → String → Bool
same_value none v = false
same_value (some u) v = str_eq u v

module _ (r : Redis) where
  pub record World : Type 0 where
    pub store : r.Store
    pub now : ℕ
    pub dlm : ℕ → DlmImpl
    pub dogs : List Watchdog
    pub next_id : ℕ
    -- who has got which lock, the latest first
    pub granted : List (ℕ × String)

  abbrev pub set_dlm : ℕ → DlmImpl → World → World
  set_dlm i d w = record w { dlm = λ j. if i == j then d else w.dlm j }

  -- A new watchdog, and `cancelFunc` set to stop it.
  unfoldable pub start_watchdog : ℕ → String → World → World
  start_watchdog i key w =
      set_dlm i (record (w.dlm i) { cancel_func = some w.next_id })
        (record w {
          dogs =
              record {
                owner = i;
                id = w.next_id;
                key = key;
                expiration = (w.dlm i).expiration;
                next = w.now + (w.dlm i).expiration / 3;
              }
              ∷ w.dogs;
          next_id = suc w.next_id;
        })

  abbrev log_grant : ℕ → String → Bool → World → World
  log_grant i key true w = record w { granted = (i, key) ∷ w.granted }
  log_grant i key false w = w

  unfoldable pub after_set_nx :
      ℕ → String → Reply → Bool × r.Store → World → (Bool × Option DlmError) × World
  unfolding start_watchdog
  after_set_nx i key arrives (ok, store) w =
      ((ok, none), start_watchdog i key (log_grant i key ok (record w { store = store })))
  after_set_nx i key (lost true) (ok, store) w =
      ((false, some redis_error), record w { store = store })
  after_set_nx i key (lost false) (ok, store) w = ((false, some redis_error), w)

  -- `TryLock` of the i-th component.
  unfoldable pub try_lock : ℕ → String → Reply → World → (Bool × Option DlmError) × World
  unfolding after_set_nx
  try_lock i key reply w =
      after_set_nx i key reply (r.set_nx w.store w.now key (w.dlm i).value (w.dlm i).expiration) w

  -- The script of `Unlock`: what it returns, and what it leaves.
  unfoldable pub unlock_script : String → String → World → ℕ × World
  unlock_script key value w =
      if same_value (r.get w.store w.now key) value
      then (1, record w { store = r.del w.store key })
      else (0, w)

  unfoldable pub call_cancel : ℕ → Option ℕ → World → Option DlmError × World
  unfolding without_dog
  call_cancel i none w = (some nil_cancel, w)
  call_cancel i (some g) w = (none, record w { dogs = without_dog i g w.dogs })

  unfoldable pub after_script : ℕ → Reply → ℕ × World → World → Option DlmError × World
  unfolding call_cancel
  after_script i arrives (n, done) w =
      if n == 1 then call_cancel i (done.dlm i).cancel_func done else (some unlock_failed, done)
  after_script i (lost true) (n, done) w = (some redis_error, done)
  after_script i (lost false) (n, done) w = (some redis_error, w)

  unfoldable pub unlock : ℕ → String → Reply → World → Option DlmError × World
  unfolding unlock_script after_script
  unlock i key reply w = after_script i reply (unlock_script key (w.dlm i).value w) w

  unfoldable pub after_fire : Bool → Option Watchdog × List Watchdog → World → World
  after_fire arrived (none, dogs) w = w
  after_fire arrived (some d, dogs) w =
      if arrived
      then record w { dogs = dogs; store = r.expire w.store w.now d.key d.expiration }
      else record w { dogs = dogs }

  -- A turn of the n-th watchdog, whose ticker is due; its command reaches redis or not.
  unfoldable pub renew : ℕ → Bool → World → World
  unfolding fire after_fire
  renew n arrived w = after_fire arrived (fire w.now n w.dogs) w

  pub data Action : Type 0 where
    tries unlocks : ℕ → String → Reply → Action
    renews : ℕ → Bool → Action
    -- the context of the i-th component is done, or its process
    context_done : ℕ → Action
    -- the clock moves on, and no ticker is kept waiting
    passes : Action

  unfoldable pub step : Action → World → Option World
  unfolding try_lock unlock renew without_owner none_due
  step (tries i key reply) w = some (try_lock i key reply w).1
  step (unlocks i key reply) w = some (unlock i key reply w).1
  step (renews n arrived) w = some (renew n arrived w)
  step (context_done i) w = some (record w { dogs = without_owner i w.dogs })
  step passes w = if none_due w.now w.dogs then some (record w { now = suc w.now }) else none

  abbrev pub after : Option World → (World → Option World) → Option World
  after none k = none
  after (some w) k = k w

  unfoldable pub run : List Action → World → Option World
  run [] w = some w
  run (a ∷ acts) w = after (step a w) (run acts)

  -- What happens elsewhere between two attempts, and how redis answers the next one.
  abbrev pub Pause : Type 0
  Pause = (World → World) × Reply

  unfoldable pub spin_result :
      (World → Option DlmError × World) → (Bool × Option DlmError) × World → Option DlmError × World
  spin_result again ((ok, some err), w) = (some err, w)
  spin_result again ((true, none), w) = (none, w)
  spin_result again ((false, none), w) = again w

  -- The loop of `SpinLock`, where `others n` is the sleep with n attempts left.
  unfoldable pub spin : ℕ → String → (ℕ → Pause) → ℕ → World → Option DlmError × World
  unfolding spin_result
  spin i key others zero w = (some spin_times_reached, w)
  spin i key others (suc n) w =
      spin_result (λ w'. spin i key others n ((others n).0 w'))
        (try_lock i key (others (suc n)).1 w)

  -- `times` is a Go int; with none, or fewer, nothing is tried.
  unfoldable pub spin_lock : ℕ → String → (ℕ → Pause) → ℤ → World → Option DlmError × World
  unfolding spin
  spin_lock i key others times w = spin i key others (pos_part times) w

  -- What `Lock` waits for: its ticker, or the context. Other goroutines have run before it.
  pub data Wake : Type 0 where
    ticked : (World → World) → Reply → Wake
    done : (World → World) → Wake

  unfoldable pub lock_result :
      (World → Option (Option DlmError × World))
      → (Bool × Option DlmError) × World
      → Option (Option DlmError × World)
  lock_result again ((ok, some err), w) = some (some err, w)
  lock_result again ((true, none), w) = some (none, w)
  lock_result again ((false, none), w) = again w

  unfoldable pub lock_loop : ℕ → String → List Wake → World → Option (Option DlmError × World)
  unfolding lock_result
  lock_loop i key [] w = none
  lock_loop i key (ticked others reply ∷ wakes) w =
      lock_result (lock_loop i key wakes) (try_lock i key reply (others w))
  lock_loop i key (done others ∷ wakes) w = some (some lock_timeout, others w)

  -- `Lock`; `none` while it waits.
  unfoldable pub lock : ℕ → String → Reply → List Wake → World → Option (Option DlmError × World)
  unfolding lock_loop
  lock i key reply wakes w = lock_result (lock_loop i key wakes) (try_lock i key reply w)
