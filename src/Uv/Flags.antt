-- ===== src/Uv/Flags.antt =====
-- A handle that is two flags, for runs at concrete inputs.
use uv_cpp.Prelude.{Bool, true, false, refl}
use uv_cpp.Uv.{Handles}

pub record Flags : Type 0 where
  pub active : Bool
  pub closing : Bool

abbrev pub flags : Handles
flags = record {
  Handle = Flags;
  is_active = λ h. h.active;
  is_closing = λ h. h.closing;
  stop = λ h. record h { active = false };
  close = λ h. record { active = false; closing = true };
  is_closing-stop = λ h. refl;
  is_closing-close = λ h. refl;
}

abbrev pub reading : Flags
reading = record { active = true; closing = false }
