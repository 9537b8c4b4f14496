-- ===== src/Worker/Payload/Bounds.antt =====
-- The search of the longest payload ends, and what eventPayload returns fits into an event.
use not_so_simple_software_f.Prelude.{
  ℕ, zero, suc, ◌-◌, ◌≤◌, ◌<◌, ◌≡◌, ◌⊎◌, inl, inr, refl, Bool, true, false, String, Option, some,
  [], ◌∷◌, arith, ltb, length, Bool-cases, leb→le, ltb→lt, length-take, subst, sym, ap,
}
use not_so_simple_software_f.Worker.Payload.{
  Bytes, Encoding, max_event_bytes, is_small, maximum_text, middle, search, longest, encode, whole,
  shorten, bounded_bytes, event_payload, is_raw,
}

middle_lem : (low high : ℕ) → low < high → (low < middle low high) × (middle low high ≤ high)
middle_lem low high h = (omega arith, omega arith)

-- What the search between two bounds finds.
pub record Found (fits : ℕ → Bool) (low high : ℕ) (out : Option ℕ) : Type 0 where
  pub place : ℕ
  pub found : out ≡ some place
  pub from : low ≤ place
  pub to : place ≤ high
  -- It fits, unless it is the lower bound, which was never tried.
  pub good : (place ≡ low) ⊎ (fits place ≡ true)
  -- The next one does not, unless it is past the upper bound.
  pub next : (place ≡ high) ⊎ (fits (suc place) ≡ false)

Found-up :
    (fits : ℕ → Bool) (low mid high : ℕ) {out : Option ℕ}
    → low ≤ mid
    → fits mid ≡ true
    → Found fits mid high out
    → Found fits low high out
Found-up fits low mid high h good f = record {
  place = f.place;
  found = f.found;
  from = omega (arith, f.from);
  to = f.to;
  good = inr (elim f.good [ inl e ↦ rw e good | inr e ↦ e ]);
  next = f.next;
}

Found-down :
    (fits : ℕ → Bool) (low mid high : ℕ) {out : Option ℕ}
    → 0 < mid
    → mid ≤ high
    → fits mid ≡ false
    → Found fits low (mid - 1) out
    → Found fits low high out
Found-down fits low mid high h k bad f =
    let e : suc (mid - 1) ≡ mid = omega arith in
    record {
      place = f.place;
      found = f.found;
      from = f.from;
      to = omega (arith, f.to);
      good = f.good;
      next = inr (elim f.next [ inl at ↦ rw at (rw e bad) | inr e ↦ e ]);
    }

search-up :
    (fits : ℕ → Bool) (fuel low high : ℕ)
    → ltb low high ≡ true
    → fits (middle low high) ≡ true
    → search fits (suc fuel) low high ≡ search fits fuel (middle low high) high
unfolding search
search-up fits fuel low high h k = ground (arith, h, k)

search-down :
    (fits : ℕ → Bool) (fuel low high : ℕ)
    → ltb low high ≡ true
    → fits (middle low high) ≡ false
    → search fits (suc fuel) low high ≡ search fits fuel low (middle low high - 1)
unfolding search
search-down fits fuel low high h k = ground (arith, h, k)

search-end :
    (fits : ℕ → Bool) (fuel low high : ℕ)
    → ltb low high ≡ false
    → search fits (suc fuel) low high ≡ some low
unfolding search
search-end fits fuel low high h = ground (arith, h)

-- The search returns when its fuel exceeds the distance of its bounds: it finds a place between them that
-- fits, or the lower bound, and the place after it does not fit, or is past the upper bound.
pub search_lem :
    (fits : ℕ → Bool) (fuel low high : ℕ)
    → low ≤ high
    → high - low < fuel
    → Found fits low high (search fits fuel low high)
search_lem fits zero low high h k = absurd (omega arith)
search_lem fits (suc fuel) low high h k = elim (Bool-cases (ltb low high)) [
  | inl more ↦
      let lt : low < high = ltb→lt low high more in
      let (a, b) = middle_lem low high lt in
      elim (Bool-cases (fits (middle low high))) [
        | inl good ↦ subst (Found fits low high) (sym (search-up fits fuel low high more good)) (
            Found-up fits low (middle low high) high (omega (arith, a)) good
              (search_lem fits fuel (middle low high) high b (omega (arith, a, b))))
        | inr bad ↦ subst (Found fits low high) (sym (search-down fits fuel low high more bad)) (
            Found-down fits low (middle low high) high (omega (arith, a)) b bad (
              search_lem fits fuel low (middle low high - 1) (omega (arith, a))
                (omega (arith, a, b))))
      ]
  | inr done ↦ record {
    place = low;
    found = search-end fits fuel low high done;
    from = omega arith;
    to = h;
    good = inl refl;
    next = inl (ground (arith, h, done));
  }
]

length-shorten : (enc : Encoding) (n : ℕ) (value : Bytes) → length (shorten enc n value) ≤ n
unfolding shorten
length-shorten enc zero value = omega arith
length-shorten enc (suc n) value =
    ground (arith, length-take (suc n) value, length-shorten enc n value)

bounded_bytes-none : (enc : Encoding) (value : Bytes) → bounded_bytes enc value 0 ≡ []
unfolding bounded_bytes shorten
bounded_bytes-none enc [] = refl
bounded_bytes-none enc (b ∷ rest) = ground arith

-- The three ways in which a payload is made.
pub data Payload (enc : Encoding) (stream : String) (text : Bytes) (truncated : Bool)
    (payload : Bytes) : Type 0 where
  raw : payload ≡ text → enc.is_json text ≡ true → Payload enc stream text truncated payload
  all : payload ≡ whole enc stream text truncated → Payload enc stream text truncated payload
  part :
      (n : ℕ)
      → payload ≡ encode enc stream text n true
      → n ≤ maximum_text text
      → (n ≡ maximum_text text) ⊎ (is_small (encode enc stream text (suc n) true) ≡ false)
      → Payload enc stream text truncated payload

-- What the search finds, as a payload.
longest-Found :
    (enc : Encoding) (stream : String) (text : Bytes)
    → Found
        (λ n. is_small (encode enc stream text n true))
        0
        (maximum_text text)
        (longest enc stream text)
unfolding longest
longest-Found enc stream text = search_lem _ _ _ _ (omega arith) (omega arith)

is_raw-facts :
    (enc : Encoding) (stream : String) (text : Bytes) (truncated : Bool)
    → is_raw enc stream text truncated ≡ true
    → (enc.is_json text ≡ true) × (length text ≤ max_event_bytes)
is_raw-facts enc stream text truncated h = ground (arith, h)

encode-none :
    (enc : Encoding) (stream : String) (text : Bytes)
    → encode enc stream text 0 true ≡ enc.marshal stream [] true
unfolding encode
encode-none enc stream text = ap (λ b. enc.marshal stream b true) (bounded_bytes-none enc text)

-- The payload of an event always exists, since the search ends, and is at most 64 KiB, provided that a
-- payload with an empty text is. It is the text itself, when that is JSON, or it carries all the text that
-- is allowed, or it carries a part that is all the allowed text, or whose extension by one byte would
-- not fit.
pub event_payload-fits :
    (enc : Encoding) (stream : String) (text : Bytes) (truncated : Bool)
    → length (enc.marshal stream [] true) ≤ max_event_bytes
    → (payload : Bytes) × (event_payload enc stream text truncated ≡ some payload)
      × (length payload ≤ max_event_bytes)
      × Payload enc stream text truncated payload
unfolding event_payload
event_payload-fits enc stream text truncated h =
    elim (Bool-cases (is_raw enc stream text truncated)) [
      | inl is ↦
          let (json, small) = is_raw-facts enc stream text truncated is in
          (text, rw is refl, small, raw refl json)
      | inr not_raw ↦ elim (Bool-cases (is_small (whole enc stream text truncated))) [
        | inl fits ↦
            (whole enc stream text truncated, rw (not_raw, fits) refl, leb→le _ _ fits, all refl)
        | inr large ↦
            let f = longest-Found enc stream text in
            let small : length (encode enc stream text f.place true) ≤ max_event_bytes =
              elim f.good [
                | inl at_low ↦ rw (at_low, encode-none enc stream text) h
                | inr fits ↦ leb→le _ _ fits
              ] in
            (
              encode enc stream text f.place true,
              rw (not_raw, large, f.found) refl,
              small,
              part f.place refl f.to f.next,
            )
      ]
    ]
