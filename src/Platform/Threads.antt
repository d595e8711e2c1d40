-- ===== src/Platform/Threads.antt =====
-- The `Thread` model of platform/contracts.py. `V` are JSON values; a time is a count of seconds.
use azure_functions_langgrap.Base.{ℕ, String, Bool, true, false, Option, List, Eq, ◌≡◌, ◌↔◌, arith}
use azure_functions_langgrap.Base.Dict.{Dict}

pub data ThreadStatus : Type 0 where
  idle busy interrupted error : ThreadStatus

abbrev pub status_beq : ThreadStatus → ThreadStatus → Bool
status_beq idle idle = true
status_beq busy busy = true
status_beq interrupted interrupted = true
status_beq error error = true
status_beq _ _ = false

pub status_beq_iff : (a b : ThreadStatus) → (status_beq a b ≡ true) ↔ (a ≡ b)
status_beq_iff a b = (λ h. ground arith, λ h. ground arith)

instance abbrev pub status_eq : Eq ThreadStatus
status_eq = record { equals = status_beq; equals_iff = status_beq_iff }

pub record Interrupt (V : Type 0) : Type 0 where
  pub value : V
  pub id : String

pub record Thread (V : Type 0) : Type 0 where
  pub thread_id : String
  pub created_at : ℕ
  pub updated_at : ℕ
  pub metadata : Option (Dict String V)
  pub status : ThreadStatus
  pub values : Option (Dict String V)
  pub assistant_id : Option String
  pub interrupts : Dict String (List (Interrupt V))
  pub lock_token : Option String
  pub lock_expires_at : Option ℕ
