-- ===== src/Payload/Types.antt =====
-- The names of rpki::rtr that src/payload.rs matches on and returns: `Action`, and the cases of
-- `PayloadError` that this repository constructs.

pub data Action : Type 0 where
  announce withdraw : Action

pub data PayloadError : Type 0 where
  duplicate_announce unknown_withdraw corrupt : PayloadError

pub data Result {ℓ} (A : Type ℓ) : Type ℓ where
  ok : A → Result A
  err : PayloadError → Result A
