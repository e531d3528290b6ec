-- ===== src/Api/Memory/Writes.antt =====
-- What a written cell holds.
use rufio.Prelude.{ℕ, ◌≡◌, ◌<◌, List, true, false, ◌==◌, refl, arith}
use rufio.Api.Memory.{
  Struct, Element, Item, Kind, one, array_of, entries, Pointee, Cell, Heap, write, fill, fill_one,
  fill_array, time_at, power_action_at, boot_action_at, media_action_at, provider_options_at,
  intel_amt_at, ipmitool_at, redfish_at, rpc_at, request_at, signature_at, hmac_at, experimental_at,
  action_at, connection_at, machine_ref_at, machine_spec_at, machine_status_at,
  machine_condition_at, job_spec_at, job_status_at, job_condition_at, task_spec_at, task_status_at,
  task_condition_at, texts, references, actions, job_conditions, task_conditions,
  machine_conditions,
}

fill_one_lem : (s : Struct) (new old : Pointee s) → fill_one s new s old ≡ new
unfolding fill_one
fill_one_lem time_at new old = refl
fill_one_lem power_action_at new old = refl
fill_one_lem boot_action_at new old = refl
fill_one_lem media_action_at new old = refl
fill_one_lem provider_options_at new old = refl
fill_one_lem intel_amt_at new old = refl
fill_one_lem ipmitool_at new old = refl
fill_one_lem redfish_at new old = refl
fill_one_lem rpc_at new old = refl
fill_one_lem request_at new old = refl
fill_one_lem signature_at new old = refl
fill_one_lem hmac_at new old = refl
fill_one_lem experimental_at new old = refl
fill_one_lem action_at new old = refl
fill_one_lem connection_at new old = refl
fill_one_lem machine_ref_at new old = refl
fill_one_lem machine_spec_at new old = refl
fill_one_lem machine_status_at new old = refl
fill_one_lem machine_condition_at new old = refl
fill_one_lem job_spec_at new old = refl
fill_one_lem job_status_at new old = refl
fill_one_lem job_condition_at new old = refl
fill_one_lem task_spec_at new old = refl
fill_one_lem task_status_at new old = refl
fill_one_lem task_condition_at new old = refl

fill_array_lem : (e : Element) (new old : List (Item e)) → fill_array e new e old ≡ new
unfolding fill_array
fill_array_lem texts new old = refl
fill_array_lem references new old = refl
fill_array_lem actions new old = refl
fill_array_lem job_conditions new old = refl
fill_array_lem task_conditions new old = refl
fill_array_lem machine_conditions new old = refl

fill_lem : (k : Kind) (new old : Cell k) → fill k new k old ≡ new
unfolding fill
fill_lem (one s) new old = fill_one_lem s new old
fill_lem (array_of e) new old = fill_array_lem e new old
fill_lem entries new old = refl

==_refl : (a : ℕ) → (a == a) ≡ true
==_refl a = ground arith

pub ==_lt : (a b : ℕ) → a < b → (a == b) ≡ false
==_lt a b h = ground arith

pub write_same : (k : Kind) (a : ℕ) (new : Cell k) (h : Heap) → (write k a new h).cells k a ≡ new
unfolding write
write_same k a new h = rw (==_refl a, fill_lem k new (h.cells k a))

==_gt : (a b : ℕ) → b < a → (a == b) ≡ false
==_gt a b h = ground arith

pub write_above :
    (k : Kind) (a : ℕ) (new : Cell k) (h : Heap) (k' : Kind) (b : ℕ)
    → b < a
    → (write k a new h).cells k' b ≡ h.cells k' b
unfolding write
write_above k a new h k' b l = rw (==_lt b a l)

pub write_below :
    (k : Kind) (a : ℕ) (new : Cell k) (h : Heap) (k' : Kind) (b : ℕ)
    → a < b
    → (write k a new h).cells k' b ≡ h.cells k' b
unfolding write
write_below k a new h k' b l = rw (==_gt b a l)
