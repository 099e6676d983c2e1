-- ===== src/Checkpoints/Chain.antt =====
-- Which list the nodes at some addresses stand for.
use mod_audio_stream.Common.{
  ℕ, ◌≡◌, refl, ap, ◌∙◌, sym, Bool, true, false, ◌||◌, List, [], ◌∷◌, ◌++◌, Option, none, some,
  arith, ◌==◌, ==_iff, update, Bool-cases, inl, inr, if-true, if-false, update-same, update-other,
  some_inj,
}
use mod_audio_stream.Checkpoints.{Checkpoint}

-- An address with the position and the name of the checkpoint there.
pub record Cell : Type 0 where
  pub at : ℕ
  pub position : ℕ
  pub name : List ℕ

abbrev pub Cells : Type 0
Cells = ℕ → Option Checkpoint

abbrev pub has : ℕ → List Cell → Bool
has a [] = false
has a (c ∷ cs) = (a == c.at) || has a cs

-- The node of a cell, whatever its tail.
pub record Holds (m : Cells) (c : Cell) (q : Option ℕ) : Type 0 where
  pub tail : ℕ
  pub stored :
      m c.at ≡ some (record { next = q; tail = tail; position = c.position; name = c.name })

-- From `p` the nodes lead through the distinct cells of the list to the end.
pub data Chain (m : Cells) : Option ℕ → List Cell → Type 0 where
  nil : Chain m none []
  cons :
      {c : Cell} {q : Option ℕ} {cs : List Cell}
      → Holds m c q
      → has c.at cs ≡ false
      → Chain m q cs
      → Chain m (some c.at) (c ∷ cs)

-- A chain of at least one cell, taken apart.
pub first_is :
    {m : Cells} {p : Option ℕ} {c : Cell} {cs : List Cell} → Chain m p (c ∷ cs) → p ≡ some c.at
first_is (cons h out s) = refl

pub uncons :
    {m : Cells} {p : Option ℕ} {c : Cell} {cs : List Cell}
    → Chain m p (c ∷ cs)
    → (q : Option ℕ) × Holds m c q × (has c.at cs ≡ false) × Chain m q cs
uncons (cons {q = q} h out s) = (q, h, out, s)

pub end_is : {m : Cells} {p : Option ℕ} → Chain m p [] → p ≡ none
end_is nil = refl

-- A change that spares the addresses of a chain keeps it.
pub frame :
    {m n : Cells} {p : Option ℕ} {cs : List Cell}
    → Chain m p cs
    → ((a : ℕ) → has a cs ≡ true → n a ≡ m a)
    → Chain n p cs
frame nil same = nil
frame (cons {c} h out s) same =
    cons
      (record { tail = h.tail; stored = same c.at (ground (arith, ==_iff c.at c.at)) ∙ h.stored })
      out (frame s (λ a i. same a (ground arith)))

pub frame-update :
    {m : Cells} {p : Option ℕ} {cs : List Cell} (a : ℕ) (v : Option Checkpoint)
    → Chain m p cs
    → has a cs ≡ false
    → Chain (update m a v) p cs
frame-update a v s out = frame s (λ b i. ground (arith, ==_iff a b))

abbrev pub last_at : Cell → List Cell → ℕ
last_at c [] = c.at
last_at c (d ∷ ds) = last_at d ds

pub has-last_at : (c : Cell) (cs : List Cell) → has (last_at c cs) (c ∷ cs) ≡ true
has-last_at c [] = ground (arith, ==_iff c.at c.at)
has-last_at c (d ∷ ds) = ground (arith, has-last_at d ds)

-- The node at the end of a chain.
pub last_node :
    {m : Cells} {p : Option ℕ} (c : Cell) (cs : List Cell)
    → Chain m p (c ∷ cs)
    → (n : Checkpoint) × (m (last_at c cs) ≡ some n)
last_node c [] (cons h out s) = (_, h.stored)
last_node c (d ∷ ds) (cons h out s) = last_node d ds s

pub has-append : (a : ℕ) (cs ds : List Cell) → has a (cs ++ ds) ≡ (has a cs || has a ds)
has-append a [] ds = refl
has-append a (c ∷ cs) ds = ground (arith, has-append a cs ds)

Holds-retail :
    {m : Cells} {c : Cell} {q : Option ℕ} (h t : ℕ) (n : Checkpoint)
    → m h ≡ some n
    → Holds m c q
    → Holds (update m h (some (record n { tail = t }))) c q
Holds-retail {m} {c} {q} h t n e v = elim (Bool-cases (h == c.at)) [
  | inl same ↦ record {
    tail = t;
    stored =
        if-true _ _ same
        ∙ ap
            (λ (o : Option Checkpoint). elim o as (λ o. Option Checkpoint) [
              | none ↦ none
              | some n ↦ some (record n { tail = t })
            ])
            (sym e ∙ ap m ((==_iff h c.at).0 same) ∙ v.stored);
  }
  | inr other ↦ record { tail = v.tail; stored = if-false _ _ other ∙ v.stored }
]

-- The tail of a node is not part of the list.
pub retail :
    {m : Cells} {p : Option ℕ} {cs : List Cell} (h t : ℕ) (n : Checkpoint)
    → m h ≡ some n
    → Chain m p cs
    → Chain (update m h (some (record n { tail = t }))) p cs
retail h t n e nil = nil
retail h t n e (cons v out s) = cons (Holds-retail h t n e v) out (retail h t n e s)

-- An address of the list differs from one that is not.
pub apart : (a b : ℕ) (cs : List Cell) → has a cs ≡ true → has b cs ≡ false → (a == b) ≡ false
apart a b cs h k = elim (Bool-cases (a == b)) [
  | inl same ↦ absurd (ground (arith, sym h ∙ ap (λ a. has a cs) ((==_iff a b).0 same) ∙ k))
  | inr other ↦ other
]

-- The node at the end is led on to a new one.
pub extend :
    {m : Cells} {p : Option ℕ} (x c : Cell) (cs : List Cell) (l : Checkpoint) (t : ℕ)
    → Chain m p (c ∷ cs)
    → has x.at (c ∷ cs) ≡ false
    → m (last_at c cs) ≡ some l
    → Chain
        (update
          (update m x.at
            (some (record { next = none; tail = t; position = x.position; name = x.name })))
          (last_at c cs)
          (some (record l { next = some x.at })))
        p
        (c ∷ cs ++ x ∷ [])
extend {m} x c [] l t (cons h out nil) fresh e =
    let new : Checkpoint = record { next = none; tail = t; position = x.position; name = x.name } in
    let n = update m x.at (some new) in
    let same = some_inj (sym e ∙ h.stored) in
    cons
      (record {
        tail = h.tail;
        stored =
            update-same n c.at _
            ∙ ap (λ (l : Checkpoint). some (record l { next = some x.at })) same;
      })
      (ground (arith, fresh, ==_iff c.at x.at, ==_iff x.at c.at))
      (cons
        (record {
          tail = t;
          stored =
              update-other n c.at x.at _ (ground (arith, fresh, ==_iff c.at x.at, ==_iff x.at c.at))
              ∙ update-same m x.at (some new);
        })
        refl nil)
extend {m} x c (d ∷ ds) l t (cons h out s) fresh e =
    let new : Checkpoint = record { next = none; tail = t; position = x.position; name = x.name } in
    let n = update m x.at (some new) in
    let last = has-last_at d ds in
    cons
      (record {
        tail = h.tail;
        stored =
            update-other n (last_at d ds) c.at _ (apart (last_at d ds) c.at (d ∷ ds) last out)
            ∙ update-other m x.at c.at _ (ground (arith, fresh))
            ∙ h.stored;
      })
      (has-append c.at (d ∷ ds) (x ∷ [])
        ∙ ground (arith, out, fresh, ==_iff c.at x.at, ==_iff x.at c.at))
      (extend x d ds l t s (ground (arith, fresh)) e)

-- An address that holds no node is none of the list.
pub free_is_new :
    {m : Cells} {p : Option ℕ} {cs : List Cell} (a : ℕ)
    → Chain m p cs
    → m a ≡ none
    → has a cs ≡ false
free_is_new a nil e = refl
free_is_new {m} a (cons {c} h out s) e = elim (Bool-cases (a == c.at)) [
  | inl same ↦ cc (sym h.stored ∙ ap m (sym ((==_iff a c.at).0 same)) ∙ e)
  | inr other ↦ ground (arith, free_is_new a s e)
]
