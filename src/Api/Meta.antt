-- ===== src/Api/Meta.antt =====
-- The Kubernetes types that the API objects embed, with the fields that the code reads or writes.
use rufio.Prelude.{ℕ, Bool, true, Option, none, some, List, ◌==◌}
use rufio.Prelude.Text.{Text}

-- A point in time in nanoseconds; 0 is the zero value of `time.Time`.
abbrev pub Time : Type 0
Time = ℕ

-- `(*metav1.Time).IsZero`: no time, or the zero time.
abbrev pub is_zero : Option Time → Bool
is_zero none = true
is_zero (some t) = t == 0

pub record NamespacedName : Type 0 where
  pub namespace : Text
  pub name : Text

pub record SecretReference : Type 0 where
  pub name : Text
  pub namespace : Text

pub record OwnerReference : Type 0 where
  pub api_version : Text
  pub kind : Text
  pub name : Text
  pub uid : Text
  pub controller : Option Bool

pub record TypeMeta : Type 0 where
  pub kind : Text
  pub api_version : Text

pub record ObjectMeta : Type 0 where
  pub name : Text
  pub namespace : Text
  pub uid : Text
  pub deletion_timestamp : Option Time
  pub owner_references : List OwnerReference
