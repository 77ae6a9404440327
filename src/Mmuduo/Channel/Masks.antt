-- ===== src/Mmuduo/Channel/Masks.antt =====
-- The tests of the mask against the events that are watched for.
use learncc.Prelude.{
  ℕ, zero, suc, ◌+◌, ◌*◌, ◌/◌, ◌%◌, ◌<◌, ◌≡◌, refl, Bool, true, false, ◌&&◌, ◌==◌, ==_iff, arith,
  if◌then◌else◌,
}
use learncc.Mmuduo.Channel.{
  epollout, read_event, bit, enable_reading, disable_reading, enable_writing, disable_writing,
  is_writing,
}

-- A mask that a channel can have: `enable_` and `disable_` set and clear the low three bits.
abbrev pub IsMask : ℕ → Type 0
IsMask e = e < 8

-- The test passes at every mask.
everywhere : (ℕ → Bool) → Bool
everywhere p = p 0 && p 1 && p 2 && p 3 && p 4 && p 5 && p 6 && p 7

at : (p : ℕ → Bool) (e : ℕ) → everywhere p ≡ true → IsMask e → p e ≡ true
unfolding everywhere
at p zero h k = ground arith
at p (suc zero) h k = ground arith
at p (suc (suc zero)) h k = ground arith
at p (suc (suc (suc zero))) h k = ground arith
at p (suc (suc (suc (suc zero)))) h k = ground arith
at p (suc (suc (suc (suc (suc zero))))) h k = ground arith
at p (suc (suc (suc (suc (suc (suc zero)))))) h k = ground arith
at p (suc (suc (suc (suc (suc (suc (suc zero))))))) h k = ground arith
at p (suc (suc (suc (suc (suc (suc (suc (suc e)))))))) h k = absurd (omega arith)

-- The channel is watched for reading.
abbrev pub reads : ℕ → Bool
reads e = bit e read_event

abbrev pub writes : ℕ → Bool
writes e = bit e epollout

abbrev agree : (ℕ → ℕ) → (ℕ → ℕ) → ℕ → Bool
agree f g e = f e == g e

enable_reading_table : everywhere (agree enable_reading (λ e. e / 4 * 4 + 3)) ≡ true
unfolding everywhere enable_reading
enable_reading_table = refl

disable_reading_table : everywhere (agree disable_reading (λ e. e / 4 * 4)) ≡ true
unfolding everywhere disable_reading
disable_reading_table = refl

enable_writing_table : everywhere (agree enable_writing (λ e. e % 4 + 4)) ≡ true
unfolding everywhere enable_writing
enable_writing_table = refl

disable_writing_table : everywhere (agree disable_writing (λ e. e % 4)) ≡ true
unfolding everywhere disable_writing
disable_writing_table = refl

writes_table : everywhere (λ e. (if bit e epollout then 1 else 0) == e / 4) ≡ true
unfolding everywhere
writes_table = refl

pub enable_reading_eq : (e : ℕ) → IsMask e → enable_reading e ≡ e / 4 * 4 + 3
enable_reading_eq e h = (==_iff _ _).0 (at _ e enable_reading_table h)

pub disable_reading_eq : (e : ℕ) → IsMask e → disable_reading e ≡ e / 4 * 4
disable_reading_eq e h = (==_iff _ _).0 (at _ e disable_reading_table h)

pub enable_writing_eq : (e : ℕ) → IsMask e → enable_writing e ≡ e % 4 + 4
enable_writing_eq e h = (==_iff _ _).0 (at _ e enable_writing_table h)

pub disable_writing_eq : (e : ℕ) → IsMask e → disable_writing e ≡ e % 4
disable_writing_eq e h = (==_iff _ _).0 (at _ e disable_writing_table h)

pub writes_eq : (e : ℕ) → IsMask e → (if bit e epollout then 1 else 0) ≡ e / 4
writes_eq e h = (==_iff _ _).0 (at _ e writes_table h)

-- A channel that is watched for reading never counts as writing, also after `enable_writing`.
pub is_writing-enable_reading :
    (e : ℕ)
    → IsMask e
    → (is_writing (enable_reading e) ≡ false)
      × (is_writing (enable_writing (enable_reading e)) ≡ false)
      × (bit (enable_writing (enable_reading e)) epollout ≡ true)
unfolding is_writing
is_writing-enable_reading e h = ground (
  arith,
  enable_reading_eq e h,
  enable_writing_eq (enable_reading e),
  writes_eq (enable_writing (enable_reading e)),
)
