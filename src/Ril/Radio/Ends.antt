-- ===== src/Ril/Radio/Ends.antt =====
-- How the functions of android2.1_init/hard_ril/reference-ril/reference-ril.c end.
use demonstratortool.Base.{◌≡◌, refl, Bool, true, false, Option, none, some, if◌then◌else◌}
use demonstratortool.Ril.Radio.{Outcome, done, null_read, overrun, no_fuel, ◌>>=◌}

abbrev pub EndsAs {ℓ} : {A : Type ℓ} → Bool → (A → Type 0) → Outcome A → Type 0
EndsAs b P (done a) = P a
EndsAs b P null_read = b ≡ true
EndsAs b P overrun = b ≡ true
EndsAs b P no_fuel = ⊥

-- A function comes to an end: with a value of which `P` holds, or, only if it may crash, with a wrong
-- access to memory; it never lacks fuel.
pub record Ends {ℓ} {A : Type ℓ} (b : Bool) (P : A → Type 0) (m : Outcome A) : Type 0 where
  pub ends : EndsAs b P m

pub null_read-Ends {ℓ} : {A : Type ℓ} (P : A → Type 0) → Ends true P null_read
null_read-Ends P = record { ends = refl }

module _ {ℓ} {A : Type ℓ} (b : Bool) (P : A → Type 0) where
  pub Ends-done : (a : A) → P a → Ends b P (done a)
  Ends-done a h = record { ends = h }

  pub Ends-bind {κ} :
      {C : Type κ} (Q : C → Type 0) (m : Outcome C) (f : C → Outcome A)
      → Ends b Q m
      → ((c : C) → Q c → Ends b P (f c))
      → Ends b P (m >>= f)
  Ends-bind Q (done c) f h k = k c h.ends
  Ends-bind Q null_read f h k = record { ends = h.ends }
  Ends-bind Q overrun f h k = record { ends = h.ends }
  Ends-bind Q no_fuel f h k = absurd h.ends

  pub Ends-if :
      (c : Bool) (m n : Outcome A)
      → (c ≡ true → Ends b P m)
      → (c ≡ false → Ends b P n)
      → Ends b P (if c then m else n)
  Ends-if true m n h k = h refl
  Ends-if false m n h k = k refl

  pub Ends-option {κ} :
      {C : Type κ} (o : Option C) (m : Outcome A) (f : C → Outcome A)
      → Ends b P m
      → ((c : C) → Ends b P (f c))
      → Ends b P (elim o [ none ↦ m | some c ↦ f c ])
  Ends-option none m f h k = h
  Ends-option (some c) m f h k = k c

  pub Ends-weaken :
      (Q : A → Type 0) (m : Outcome A) → ((a : A) → Q a → P a) → Ends b Q m → Ends b P m
  Ends-weaken Q (done a) k h = record { ends = k a h.ends }
  Ends-weaken Q null_read k h = record { ends = h.ends }
  Ends-weaken Q overrun k h = record { ends = h.ends }
  Ends-weaken Q no_fuel k h = absurd h.ends

  pub Ends-crash : (m : Outcome A) → Ends b P m → Ends true P m
  Ends-crash (done a) h = record { ends = h.ends }
  Ends-crash null_read h = record { ends = refl }
  Ends-crash overrun h = record { ends = refl }
  Ends-crash no_fuel h = absurd h.ends

  pub Ends-loosen : (m : Outcome A) → Ends false P m → Ends b P m
  Ends-loosen (done a) h = record { ends = h.ends }
  Ends-loosen null_read h = cc h.ends
  Ends-loosen overrun h = cc h.ends
  Ends-loosen no_fuel h = absurd h.ends
