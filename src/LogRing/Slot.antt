-- ===== src/LogRing/Slot.antt =====
-- main/log_ring.c: the slots, their check, and the state of the ring. An array is a function of
-- the index; a text is the bytes in front of its NUL, and one with no NUL in its 180 bytes is
-- `unterminated`.
use cores3_epskc_commissione.Base.{
  ℕ, ◌*◌, ◌/◌, ◌%◌, ◌^◌, Bool, true, false, not, ◌&&◌, Option, List, [], ◌∷◌, ◌==◌, if◌then◌else◌,
  bit_xor,
}

abbrev pub ring_lines : ℕ
ring_lines = 1024

abbrev pub u32 : ℕ → ℕ
u32 n = n % 2 ^ 32

pub data Text : Type 0 where
  line : List ℕ → Text
  unterminated : List ℕ → Text

pub record Slot : Type 0 where
  pub seq : ℕ
  pub uptime_ms : ℕ
  pub check : ℕ
  pub text : Text

-- One round of FNV-1a.
unfoldable pub mix : ℕ → ℕ → ℕ
mix h b = u32 (bit_xor h b * 16777619)

unfoldable pub mix_all : ℕ → List ℕ → ℕ
mix_all h [] = h
mix_all h (b ∷ bs) = mix_all (mix h b) bs

-- The bytes of a little-endian 32-bit word.
abbrev pub word_bytes : ℕ → List ℕ → List ℕ
word_bytes w rest = (w % 256) ∷ (w / 256 % 256) ∷ (w / 65536 % 256) ∷ (w / 16777216 % 256) ∷ rest

abbrev pub chars : Text → List ℕ
chars (line s) = s
chars (unterminated s) = s

-- `slot_check(s, boot_id)`
unfoldable pub slot_check : ℕ → ℕ → Text → ℕ → ℕ
unfolding mix_all mix
slot_check seq uptime_ms text boot_id = mix_all 2166136261 (
    word_bytes seq (
      word_bytes uptime_ms
        (word_bytes (u32 boot_id) (word_bytes (u32 (boot_id / 2 ^ 32)) (chars text)))))

abbrev pub terminated : Text → Bool
terminated (line s) = true
terminated (unterminated s) = false

unfoldable pub slot_valid : Slot → ℕ → Bool
slot_valid s boot_id =
    not (s.seq == 0)
    && terminated s.text
    && (s.check == slot_check s.seq s.uptime_ms s.text boot_id)

pub record Half : Type 0 where
  pub magic : ℕ
  pub boot_count : ℕ
  pub boot_id : ℕ
  pub slots : ℕ → Slot

pub record Ring : Type 0 where
  pub magic : ℕ
  pub layout : ℕ
  pub boot_count : ℕ
  pub active : ℕ
  pub half : ℕ → Half

pub record Pending : Type 0 where
  pub task : ℕ
  pub text : List ℕ

-- The file's variables: the ring in no-init memory, and what each boot starts afresh. `cur` and
-- `prev` point to a half.
pub record State : Type 0 where
  pub ring : Ring
  pub cur : Option ℕ
  pub prev : Option ℕ
  pub latest : ℕ
  pub last_ms : ℕ
  pub prev_latest : ℕ
  pub prev_last_ms : ℕ
  pub pending : List Pending
  pub victim : ℕ

abbrev pub update {ℓ} : {A : Type ℓ} → (ℕ → A) → ℕ → A → ℕ → A
update f i v j = if i == j then v else f j
