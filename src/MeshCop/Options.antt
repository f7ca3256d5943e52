-- ===== src/MeshCop/Options.antt =====
-- main/meshcop_codec.h: the loop over the CoAP options and the encoder of options.
use cores3_epskc_commissione.Base.{
  ℕ, ◌+◌, ◌<◌, ◌≤◌, ◌≡◌, refl, ◌⊎◌, inl, inr, true, false, ◌||◌, none, some, List, [], ◌∷◌, ◌++◌,
  ltb, ◌==◌, if◌then◌else◌, length, Bytes, take, drop, take-append-drop, length-append, arith,
  Bool-cases, le→ltb, ltb→le,
}
use cores3_epskc_commissione.Base.Checked.{
  ok, advance-le, advance-append, length-drop, Bytes-drop, length-take_le,
}
use cores3_epskc_commissione.MeshCop.Codec.{word16, ext_size, option_length, skip_fields}
use cores3_epskc_commissione.MeshCop.Format.{nibble_of, ext_bytes, CoapOption, Encodable}

-- The bytes that extend a nibble, taken from the buffer.
pub record Extends (n : ℕ) (rest : List ℕ) : Type 0 where
  pub number : ℕ
  pub fits : number < 65805
  pub nibble : nibble_of number ≡ n
  pub bytes : take (ext_size n) rest ≡ ext_bytes number
  pub reads : option_length n rest ≡ ok number

extends : (n : ℕ) (rest : List ℕ) → n < 15 → Bytes rest → ext_size n ≤ length rest → Extends n rest
unfolding nibble_of ext_bytes option_length
extends n [] h b l = record {
  number = n;
  fits = omega arith;
  nibble = ground arith;
  bytes = ground arith;
  reads = ground arith;
}
extends n (x ∷ []) h b l = record {
  number = if n == 13 then x + 13 else n;
  fits = ground arith;
  nibble = ground arith;
  bytes = ground arith;
  reads = ground arith;
}
extends n (x ∷ y ∷ rest) h b l = record {
  number = if n == 13 then x + 13 else if n == 14 then word16 x y + 269 else n;
  fits = ground arith;
  nibble = ground arith;
  bytes = ground arith;
  reads = ground arith;
}

pub nibble_of_lt : (n : ℕ) → nibble_of n < 15
unfolding nibble_of
nibble_of_lt n = ground arith

length-ext_bytes : (n : ℕ) → length (ext_bytes n) ≡ ext_size (nibble_of n)
unfolding nibble_of ext_bytes
length-ext_bytes n = ground arith

option_length-ext_bytes :
    (n : ℕ) (rest : List ℕ) → n < 65805 → option_length (nibble_of n) (ext_bytes n ++ rest) ≡ ok n
unfolding nibble_of ext_bytes option_length
option_length-ext_bytes n rest h = ground arith

pub skip_fields-encode :
    (d : ℕ) (v rest : List ℕ)
    → d < 65805
    → length v < 65805
    → skip_fields
        (nibble_of d)
        (nibble_of (length v))
        (ext_bytes d ++ (ext_bytes (length v) ++ (v ++ rest)))
      ≡ ok (some rest)
unfolding skip_fields
skip_fields-encode d v rest hd hv = rw (
  not_fifteen d (length v),
  le→ltb _ _ room,
  advance-append (ext_size (nibble_of d)) (ext_bytes d) _ (length-ext_bytes d),
  option_length-ext_bytes (length v) (v ++ rest) hv,
  advance-append (ext_size (nibble_of (length v))) (ext_bytes (length v)) _
      (length-ext_bytes (length v)),
  le→ltb _ _ enough,
  advance-append (length v) v rest refl,
)
  where
    not_fifteen : (a b : ℕ) → ((nibble_of a == 15) || (nibble_of b == 15)) ≡ false
    not_fifteen a b = ground (arith, nibble_of_lt a, nibble_of_lt b)

    enough : length v ≤ length (v ++ rest)
    enough = omega (arith, length-append v rest)

    room :
        ext_size (nibble_of d) + ext_size (nibble_of (length v))
        ≤ length (ext_bytes d ++ (ext_bytes (length v) ++ (v ++ rest)))
    room = omega (
      arith,
      length-append (ext_bytes d) (ext_bytes (length v) ++ (v ++ rest)),
      length-append (ext_bytes (length v)) (v ++ rest),
      length-ext_bytes d,
      length-ext_bytes (length v),
    )

-- What `skip_fields` leaves, and the option that it has passed.
pub record Passed (delta len : ℕ) (rest after : List ℕ) : Type 0 where
  pub option : CoapOption
  pub encodable : Encodable option
  pub delta_nibble : nibble_of option.delta ≡ delta
  pub value_nibble : nibble_of (length option.value) ≡ len
  pub split :
      rest ≡ ext_bytes option.delta ++ (ext_bytes (length option.value) ++ (option.value ++ after))

-- The round with its two nibbles and their extension bytes known.
module _ (delta len : ℕ) (rest : List ℕ) (nibbles : ((delta == 15) || (len == 15)) ≡ false)
    (room : ltb (length rest) (ext_size delta + ext_size len) ≡ false) (step : Extends delta rest)
    (size : Extends len (drop (ext_size delta) rest)) where
  behind : List ℕ
  behind = drop (ext_size len) (drop (ext_size delta) rest)

  room_first : ext_size delta ≤ length rest
  room_first = omega (arith, ltb→le _ _ room)

  room_second : ext_size len ≤ length (drop (ext_size delta) rest)
  room_second = omega (arith, ltb→le _ _ room, length-drop (ext_size delta) rest room_first)

  skip_fields-short : ltb (length behind) size.number ≡ true → skip_fields delta len rest ≡ ok none
  unfolding skip_fields behind
  skip_fields-short e = rw (
    nibbles,
    room,
    advance-le (ext_size delta) rest room_first,
    size.reads,
    advance-le (ext_size len) _ room_second,
    e,
  )

  skip_fields-long :
      ltb (length behind) size.number ≡ false
      → skip_fields delta len rest ≡ ok (some (drop size.number behind))
  unfolding skip_fields behind
  skip_fields-long e = rw (
    nibbles,
    room,
    advance-le (ext_size delta) rest room_first,
    size.reads,
    advance-le (ext_size len) _ room_second,
    e,
    advance-le size.number _ (ltb→le _ _ e),
  )

  passed : ltb (length behind) size.number ≡ false → Passed delta len rest (drop size.number behind)
  unfolding behind
  passed e =
      let v : List ℕ = take size.number behind in
      let n : length v ≡ size.number = length-take_le size.number behind (ltb→le _ _ e) in
      record {
        option = record { delta = step.number; value = v };
        encodable = record { delta_fits = step.fits; value_fits = omega (arith, size.fits) };
        delta_nibble = step.nibble;
        value_nibble = rw n size.nibble;
        split = rw (
          n,
          ← step.bytes,
          ← size.bytes,
          take-append-drop size.number behind,
          take-append-drop (ext_size len) (drop (ext_size delta) rest),
          take-append-drop (ext_size delta) rest,
        );
      }

pub skip_fields-cases :
    (delta len : ℕ) (rest : List ℕ)
    → delta < 16
    → len < 16
    → Bytes rest
    → (skip_fields delta len rest ≡ ok none)
      ⊎ ((after : List ℕ) × (skip_fields delta len rest ≡ ok (some after))
          × Passed delta len rest after)
unfolding skip_fields
skip_fields-cases delta len rest hd hl hb = elim (Bool-cases ((delta == 15) || (len == 15))) [
  | inl e ↦ inl (rw e)
  | inr e ↦ elim (Bool-cases (ltb (length rest) (ext_size delta + ext_size len))) [
    | inl e2 ↦ inl (rw (e, e2))
    | inr e2 ↦
        decide e e2 (extends delta rest (ground arith) hb (omega (arith, ltb→le _ _ e2)))
          (extends len _ (ground arith) (Bytes-drop (ext_size delta) rest hb) (room_second' e e2))
  ]
]
  where
    room_second' :
        ((delta == 15) || (len == 15)) ≡ false
        → ltb (length rest) (ext_size delta + ext_size len) ≡ false
        → ext_size len ≤ length (drop (ext_size delta) rest)
    room_second' e e2 =
        omega
          (arith, ltb→le _ _ e2, length-drop (ext_size delta) rest (omega (arith, ltb→le _ _ e2)))

    decide :
        ((delta == 15) || (len == 15)) ≡ false
        → ltb (length rest) (ext_size delta + ext_size len) ≡ false
        → Extends delta rest
        → Extends len (drop (ext_size delta) rest)
        → (skip_fields delta len rest ≡ ok none)
          ⊎ ((after : List ℕ) × (skip_fields delta len rest ≡ ok (some after))
              × Passed delta len rest after)
    decide e e2 a b = elim (Bool-cases (ltb (length (behind delta len rest e e2 a b)) b.number)) [
      | inl t ↦ inl (skip_fields-short delta len rest e e2 a b t)
      | inr t ↦ inr (
        drop b.number (behind delta len rest e e2 a b),
        skip_fields-long delta len rest e e2 a b t,
        passed delta len rest e e2 a b t,
      )
    ]
