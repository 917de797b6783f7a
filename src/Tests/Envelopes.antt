-- ===== src/Tests/Envelopes.antt =====
-- A JSON form of envelopes that meets the laws, for concrete runs: each number is written in unary,
-- so that the text and its bytes are the same.
use fastapi_task_api.Base.{
  ℕ, zero, suc, ◌+◌, ◌≡◌, refl, ap, ◌∙◌, Option, none, some, List, [], ◌∷◌, arith,
}
use fastapi_task_api.Base.Int.{ℤ, pos, negsuc, pos_part, ◌≤ℤ◌}
use fastapi_task_api.Base.Text.{Text}
use fastapi_task_api.RealtimeModels.{
  Serialized, text, bytes, encode, encode_point, RealtimeMessageEvent, UserRealtimeEventEnvelope,
  Json, JsonLaws,
}

unary : ℕ → Text → Text
unary zero rest = 0 ∷ rest
unary (suc n) rest = 1 ∷ unary n rest

pub unaries : List ℕ → Text
unaries [] = []
unaries (n ∷ ns) = unary n (unaries ns)

pub counts : ℕ → Text → List ℕ
counts n [] = []
counts n (zero ∷ t) = n ∷ counts 0 t
counts n (suc c ∷ t) = counts (n + 1) t

counts-unary : (k n : ℕ) (rest : Text) → counts k (unary n rest) ≡ (k + n) ∷ counts 0 rest
unfolding counts unary
counts-unary k zero rest = ap (λ m. m ∷ counts 0 rest) (omega arith)
counts-unary k (suc n) rest =
    counts-unary (k + 1) n rest ∙ ap (λ m. m ∷ counts 0 rest) (omega arith)

counts-unaries : (ns : List ℕ) → counts 0 (unaries ns) ≡ ns
unfolding counts unaries
counts-unaries [] = refl
counts-unaries (n ∷ ns) =
    counts-unary 0 n (unaries ns)
    ∙ ap (λ m. m ∷ counts 0 (unaries ns)) (omega arith)
    ∙ ap (λ t. n ∷ t) (counts-unaries ns)

encode-unary : (n : ℕ) (rest : Text) → encode rest ≡ rest → encode (unary n rest) ≡ unary n rest
unfolding encode encode_point unary
encode-unary zero rest h = ap (λ t. 0 ∷ t) h
encode-unary (suc n) rest h = ap (λ t. 1 ∷ t) (encode-unary n rest h)

encode-unaries : (ns : List ℕ) → encode (unaries ns) ≡ unaries ns
unfolding encode unaries
encode-unaries [] = refl
encode-unaries (n ∷ ns) = encode-unary n (unaries ns) (encode-unaries ns)

abbrev numbers : UserRealtimeEventEnvelope → List ℕ
numbers e = pos_part e.user_id ∷ e.event.content

abbrev envelope_of : List ℕ → Option UserRealtimeEventEnvelope
envelope_of [] = none
envelope_of (zero ∷ content) = none
envelope_of (suc n ∷ content) =
    some (record { user_id = pos (suc n); event = record { content = content } })

abbrev read : Serialized → Option UserRealtimeEventEnvelope
read (text s) = envelope_of (counts 0 s)
read (bytes s) = envelope_of (counts 0 s)

abbrev pub plainly : Json
plainly = record {
  dump = λ e. unaries (numbers e);
  dump_event = λ event. event.content;
  validate = read;
}

by_id :
    (i : ℤ) (event : RealtimeMessageEvent)
    → pos 1 ≤ℤ i
    → envelope_of (pos_part i ∷ event.content) ≡ some (record { user_id = i; event = event })
by_id (pos zero) event h = absurd (omega arith)
by_id (pos (suc n)) event h = refl
by_id (negsuc n) event h = absurd (omega arith)

numbers_lem :
    (e : UserRealtimeEventEnvelope) → pos 1 ≤ℤ e.user_id → envelope_of (numbers e) ≡ some e
numbers_lem e h = by_id e.user_id e.event h

pub read-text :
    (e : UserRealtimeEventEnvelope) → pos 1 ≤ℤ e.user_id → read (text (plainly.dump e)) ≡ some e
read-text e h = ap envelope_of (counts-unaries (numbers e)) ∙ numbers_lem e h

pub read-bytes :
    (e : UserRealtimeEventEnvelope)
    → pos 1 ≤ℤ e.user_id
    → read (bytes (encode (plainly.dump e))) ≡ some e
read-bytes e h = ap (λ s. envelope_of (counts 0 s)) (encode-unaries (numbers e)) ∙ read-text e h

abbrev pub plainly_laws : JsonLaws plainly
plainly_laws = record { validate-dump = read-text; validate_bytes-dump = read-bytes }
