-- ===== src/Operation/Event/Tamper.antt =====
-- What a verified event chain of backend/app/operations/core/domain.py pins down.
use package.text.Mathlib.TextLemmas.{append_cancel_left}
use gjallar.Prelude.{
  ℕ, ◌+◌, ◌<◌, ◌≤◌, ◌≡◌, refl, String, true, some, List, [], ◌∷◌, ◌++◌, map, All, arith, length,
  str_eq_iff,
}
use gjallar.Json.{text, object, Fields, get}
use gjallar.Operation.Event.{
  OperationEvent, Platform, canonical_json, operation_digest, event_checksum_payload,
  checksum_arguments, verify_from, verify_event_chain,
}

-- The dict that is digested for an event, and its digest.
abbrev pub digested : Platform → OperationEvent → Fields
digested p e = event_checksum_payload p (checksum_arguments e)

abbrev pub event_digest : Platform → OperationEvent → String
event_digest p e = operation_digest p (digested p e)

-- The text that is hashed for an event.
abbrev pub hashed_text : Platform → OperationEvent → String
hashed_text p e = canonical_json p (object (digested p e))

-- What the loop has tested of one event, and the loop over the rest.
pub record Link (p : Platform) (previous : String) (n : ℕ) (e : OperationEvent)
    (es : List OperationEvent) : Type 0 where
  pub sequence : e.sequence ≡ n
  pub linked : e.previous_checksum ≡ previous
  pub digested : e.checksum ≡ event_digest p e
  pub rest : verify_from p e.checksum (n + 1) es ≡ true

pub verify_from-Link :
    (p : Platform) (previous : String) (n : ℕ) (e : OperationEvent) (es : List OperationEvent)
    → verify_from p previous n (e ∷ es) ≡ true
    → Link p previous n e es
unfolding verify_from
verify_from-Link p previous n e es h =
    ground
      (arith, str_eq_iff e.previous_checksum previous, str_eq_iff e.checksum (event_digest p e))

pub Link-verify_from :
    (p : Platform) (previous : String) (n : ℕ) (e : OperationEvent) (es : List OperationEvent)
    → Link p previous n e es
    → verify_from p previous n (e ∷ es) ≡ true
unfolding verify_from
Link-verify_from p previous n e es h =
    ground
      (arith, str_eq_iff e.previous_checksum previous, str_eq_iff e.checksum (event_digest p e))

-- The checksum that a chain ends in.
abbrev pub last_checksum : String → List OperationEvent → String
last_checksum previous [] = previous
last_checksum previous (e ∷ es) = last_checksum e.checksum es

-- One more event that continues a verified chain makes a verified chain.
pub verify_from-append :
    (p : Platform) (previous : String) (n m : ℕ) (es : List OperationEvent) (e : OperationEvent)
    → m ≡ n + length es
    → verify_from p previous n es ≡ true
    → verify_from p (last_checksum previous es) m (e ∷ []) ≡ true
    → verify_from p previous n (es ++ e ∷ []) ≡ true
verify_from-append p previous n m [] e em h k = let same : n ≡ m = omega arith in rw same k
verify_from-append p previous n m (x ∷ es) e em h k =
    let l = verify_from-Link p previous n x es h in
    let tail = verify_from-append p x.checksum (n + 1) m es e (omega arith) l.rest k in
    Link-verify_from p previous n x (es ++ e ∷ [])
      (record { sequence = l.sequence; linked = l.linked; digested = l.digested; rest = tail })

-- The numbers of a verified chain stay below the next number.
pub verify_from-bound :
    (p : Platform) (previous : String) (n m : ℕ) (es : List OperationEvent)
    → n + length es ≤ m
    → verify_from p previous n es ≡ true
    → All (λ (e : OperationEvent). e.sequence < m) es
verify_from-bound p previous n m [] hm h = tt
verify_from-bound p previous n m (x ∷ es) hm h =
    let l = verify_from-Link p previous n x es h in
    let first = l.sequence in
    (omega arith, verify_from-bound p x.checksum (n + 1) m es (omega arith) l.rest)

-- SHA-256 tells apart the texts that are hashed at each position of the two chains.
abbrev pub NoCollision : Platform → List OperationEvent → List OperationEvent → Type 0
NoCollision p (e ∷ es) (f ∷ fs) =
    (p.sha256_of_text (hashed_text p e) ≡ p.sha256_of_text (hashed_text p f)
      → hashed_text p e ≡ hashed_text p f)
    × NoCollision p es fs
NoCollision p _ _ = Unit

-- Where `json.dumps` makes the same text of the dicts at a position of the two chains, each text that is
-- the value of a key in the one is its value in the other, as `json.loads` of the text gives it back.
abbrev pub ReadsBack : Platform → List OperationEvent → List OperationEvent → Type 0
ReadsBack p (e ∷ es) (f ∷ fs) =
    (hashed_text p e ≡ hashed_text p f
      → (k s : String) → get k (digested p e) ≡ some (text s)
      → get k (digested p f) ≡ some (text s))
    × ReadsBack p es fs
ReadsBack p _ _ = Unit

-- The texts of an event that name its Operation, its type and its stage.
abbrev pub event_texts : OperationEvent → String × String × String
event_texts e = (e.operation_id, e.event_type, e.stage)

event_digest-injective :
    (p : Platform) (e f : OperationEvent)
    → event_digest p e ≡ event_digest p f
    → p.sha256_of_text (hashed_text p e) ≡ p.sha256_of_text (hashed_text p f)
unfolding operation_digest
event_digest-injective p e f h = append_cancel_left "sha256:" _ _ h

-- The text under a key of both dicts is the same.
same_text :
    (k s t : String) (a b : Fields)
    → ((j u : String) → get j a ≡ some (text u) → get j b ≡ some (text u))
    → get k a ≡ some (text s)
    → get k b ≡ some (text t)
    → s ≡ t
same_text k s t a b reads x y = let z = reads k s x in cc (y, z)

-- Two events with the same hashed text name the same Operation, type, stage and previous checksum.
same_event :
    (p : Platform) (e f : OperationEvent)
    → ((k s : String) → get k (digested p e) ≡ some (text s) → get k (digested p f) ≡ some (text s))
    → (event_texts e ≡ event_texts f) × (e.previous_checksum ≡ f.previous_checksum)
unfolding get
same_event p e f reads =
    let a =
      same_text "operation_id" e.operation_id f.operation_id (digested p e) (digested p f) reads
        refl refl in
    let b =
      same_text "event_type" e.event_type f.event_type (digested p e) (digested p f) reads refl
        refl in
    let c = same_text "stage" e.stage f.stage (digested p e) (digested p f) reads refl refl in
    (
      cc (a, b, c),
      same_text "previous_checksum" e.previous_checksum f.previous_checksum (digested p e)
          (digested p f) reads refl refl,
    )

chain_from :
    (p : Platform) (a b : String) (n : ℕ) (es fs : List OperationEvent)
    → verify_from p a n es ≡ true
    → verify_from p b n fs ≡ true
    → length es ≡ length fs
    → last_checksum a es ≡ last_checksum b fs
    → NoCollision p es fs
    → ReadsBack p es fs
    → (a ≡ b)
      × (map (hashed_text p) es ≡ map (hashed_text p) fs)
      × (map event_texts es ≡ map event_texts fs)
chain_from p a b n [] [] he hf hl hc nc rb = (hc, refl, refl)
chain_from p a b n [] (f ∷ fs) he hf hl hc nc rb = absurd (omega arith)
chain_from p a b n (e ∷ es) [] he hf hl hc nc rb = absurd (omega arith)
chain_from p a b n (e ∷ es) (f ∷ fs) he hf hl hc nc rb =
    let l = verify_from-Link p a n e es he in
    let m = verify_from-Link p b n f fs hf in
    let (heads, tails, texts) =
      chain_from p e.checksum f.checksum (n + 1) es fs l.rest m.rest (omega arith) hc nc.1 rb.1 in
    let digests : event_digest p e ≡ event_digest p f = cc (l.digested, m.digested, heads) in
    let same = nc.0 (event_digest-injective p e f digests) in
    let (named, previous) = same_event p e f (rb.0 same) in
    (cc (l.linked, m.linked, previous), cc (same, tails), cc (named, texts))

-- Two chains that verify, are equally long and end in the same checksum have the same hashed text at
-- each position, and there the same Operation, event type and stage, if SHA-256 does not collide on
-- these texts and `json.dumps` can be read back.
pub verify_event_chain_unique :
    (p : Platform) (es fs : List OperationEvent)
    → verify_event_chain p es ≡ true
    → verify_event_chain p fs ≡ true
    → length es ≡ length fs
    → last_checksum "" es ≡ last_checksum "" fs
    → NoCollision p es fs
    → ReadsBack p es fs
    → (map (hashed_text p) es ≡ map (hashed_text p) fs) × (map event_texts es ≡ map event_texts fs)
unfolding verify_event_chain
verify_event_chain_unique p es fs he hf hl hc nc rb =
    let (start, hashed, texts) = chain_from p "" "" 1 es fs he hf hl hc nc rb in (hashed, texts)
