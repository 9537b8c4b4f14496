-- ===== src/Worker/Payload.antt =====
-- The payload of an event of an attempt: eventPayload (factory/internal/worker/events.go) and boundedText
-- (factory/internal/worker/supervisor.go). JSON and UTF-8 are parameters.
pub mod Bounds
use not_so_simple_software_f.Prelude.{
  ℕ, zero, suc, ◌+◌, ◌-◌, ◌/◌, Bool, true, false, not, ◌&&◌, ◌||◌, String, Option, none, some, List,
  ltb, leb, str_eq, length, take, if◌then◌else◌,
}

-- A Go string: what an agent writes need not be UTF-8.
abbrev pub Bytes : Type 0
Bytes = List ℕ

-- utf8.ValidString, json.Valid, and json.Marshal of the fields stream, text and truncated.
pub record Encoding : Type 0 where
  pub is_utf8 : Bytes → Bool
  pub is_json : Bytes → Bool
  pub marshal : String → Bytes → Bool → Bytes

-- protocol.MaxEventBytes
abbrev pub max_event_bytes : ℕ
max_event_bytes = 65536

-- The loop that takes bytes off the end until the rest is UTF-8; the empty string is.
unfoldable pub shorten : Encoding → ℕ → Bytes → Bytes
shorten enc zero value = take 0 value
shorten enc (suc n) value =
    let rest = shorten enc n value in
    if enc.is_utf8 (take (suc n) value) then take (suc n) value else rest

unfoldable pub bounded_bytes : Encoding → Bytes → ℕ → Bytes
bounded_bytes enc value limit = if leb (length value) limit then value else shorten enc limit value

-- The closure `encode`.
unfoldable pub encode : Encoding → String → Bytes → ℕ → Bool → Bytes
encode enc stream text n truncated = enc.marshal stream (bounded_bytes enc text n) truncated

-- low + (high-low+1)/2
abbrev pub middle : ℕ → ℕ → ℕ
middle low high = low + (high - low + 1) / 2

-- The search between `low` and `high`, with fuel; `none` when the fuel runs out.
unfoldable pub search : (ℕ → Bool) → ℕ → ℕ → ℕ → Option ℕ
search fits zero low high = none
search fits (suc fuel) low high = elim (ltb low high) [
  | true ↦ elim (fits (middle low high)) [
    | true ↦ search fits fuel (middle low high) high
    | false ↦ search fits fuel low (middle low high - 1)
  ]
  | false ↦ some low
]

abbrev pub is_small : Bytes → Bool
is_small payload = leb (length payload) max_event_bytes

-- maximumText
abbrev pub maximum_text : Bytes → ℕ
maximum_text text =
    if ltb (length text) (max_event_bytes - 256) then length text else max_event_bytes - 256

-- The search of the longest text, and the payload of what it finds.
unfoldable pub longest : Encoding → String → Bytes → Option ℕ
longest enc stream text =
    search (λ n. is_small (encode enc stream text n true)) (suc (maximum_text text)) 0
      (maximum_text text)

abbrev pub cut_short : Encoding → String → Bytes → Option ℕ → Option Bytes
cut_short enc stream text none = none
cut_short enc stream text (some low) = some (encode enc stream text low true)

-- A text that is JSON itself is sent as it is.
abbrev pub is_raw : Encoding → String → Bytes → Bool → Bool
is_raw enc stream text truncated =
    str_eq stream "stdout" && not truncated && enc.is_json text && is_small text

-- The payload when all the text that is allowed is put into it.
abbrev pub whole : Encoding → String → Bytes → Bool → Bytes
whole enc stream text truncated =
    encode enc stream text (maximum_text text) (truncated || ltb (maximum_text text) (length text))

unfoldable pub event_payload : Encoding → String → Bytes → Bool → Option Bytes
event_payload enc stream text truncated =
    if is_raw enc stream text truncated
    then some text
    else if is_small (whole enc stream text truncated)
    then some (whole enc stream text truncated)
    else cut_short enc stream text (longest enc stream text)
