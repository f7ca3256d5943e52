-- ===== src/LogRing/Text.antt =====
-- main/log_ring.c: `utf8_len` and `append_clean`. The bytes from a pointer on, `len` of them, are a
-- list.
use cores3_epskc_commissione.Base.{
  ℕ, zero, suc, ◌+◌, ◌-◌, ◌/◌, Bool, true, false, not, ◌&&◌, ◌||◌, List, [], ◌∷◌, ◌++◌, ltb, leb,
  ◌==◌, if◌then◌else◌, length, get_or, drop, take,
}

-- `LOG_RING_TEXT`: bytes of a line, its NUL included.
abbrev pub text_size : ℕ
text_size = 180

-- `(c & 0xc0) == 0x80`
abbrev pub is_continuation : ℕ → Bool
is_continuation c = c / 64 == 2

-- The loop over `s[1] .. s[n-1]`.
abbrev pub continuations : ℕ → List ℕ → Bool
continuations zero s = true
continuations (suc n) [] = false
continuations (suc n) (c ∷ s) = is_continuation c && continuations n s

-- `n` of `utf8_len`, from the lead byte.
abbrev pub lead_len : ℕ → ℕ
lead_len c =
    if leb 0xc2 c && leb c 0xdf
    then 2
    else if leb 0xe0 c && leb c 0xef
    then 3
    else if leb 0xf0 c && leb c 0xf4
    then 4
    else 0

-- The overlong forms, the surrogates and what lies above U+10FFFF.
abbrev pub bad_second : ℕ → ℕ → Bool
bad_second c d =
    ((c == 0xe0) && ltb d 0xa0)
    || ((c == 0xed) && ltb 0x9f d)
    || ((c == 0xf0) && ltb d 0x90)
    || ((c == 0xf4) && ltb 0x8f d)

unfoldable pub utf8_len : List ℕ → ℕ
utf8_len [] = 0
utf8_len (c ∷ s) =
    if (lead_len c == 0) || ltb (length (c ∷ s)) (lead_len c)
    then 0
    else if not (continuations (lead_len c - 1) s)
    then 0
    else if bad_second c (get_or s 0 0)
    then 0
    else lead_len c

-- Behind `ESC [`: the parameters and the final byte of the escape code.
unfoldable pub skip_csi : List ℕ → List ℕ
skip_csi [] = []
skip_csi (c ∷ s) = if ltb c 0x40 || ltb 0x7e c then skip_csi s else s

-- Behind `ESC`.
unfoldable pub skip_escape : List ℕ → List ℕ
unfolding skip_csi
skip_escape [] = []
skip_escape (c ∷ s) = if c == b'[' then skip_csi s else c ∷ s

-- The loop of `append_clean`: what it writes behind the `used` bytes that are there. The fuel is
-- at least the length of the source.
unfoldable pub clean : ℕ → ℕ → List ℕ → List ℕ
clean fuel used [] = []
clean zero used (c ∷ s) = []
clean (suc fuel) used (c ∷ s) = elim (ltb used (text_size - 1)) [
  | false ↦ []
  | true ↦ elim (c == 0x1b) [
    | true ↦ clean fuel used (skip_escape s)
    | false ↦ elim (c == 13) [
      | true ↦ clean fuel used s
      | false ↦ elim (ltb c 0x20 || (c == 0x7f)) [
        | true ↦ 32 ∷ clean fuel (used + 1) s
        | false ↦ elim (ltb c 0x80) [
          | true ↦ c ∷ clean fuel (used + 1) s
          | false ↦ elim (utf8_len (c ∷ s) == 0) [
            | true ↦ b'?' ∷ clean fuel (used + 1) s
            | false ↦ elim (ltb (text_size - 1) (used + utf8_len (c ∷ s))) [
              | true ↦ []
              | false ↦
                  take (utf8_len (c ∷ s)) (c ∷ s)
                  ++ clean fuel (used + utf8_len (c ∷ s)) (drop (utf8_len (c ∷ s)) (c ∷ s))
            ]
          ]
        ]
      ]
    ]
  ]
]

-- `append_clean(dst, used, src, len)` and the number that it returns: the bytes of `dst` in front
-- of its NUL. Only those are read again.
unfoldable pub append_clean : List ℕ → List ℕ → List ℕ
unfolding clean skip_escape utf8_len
append_clean dst src = dst ++ clean (length src) (length dst) src
