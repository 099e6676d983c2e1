-- ===== src/Checkpoints/Refine.antt =====
-- The operations on the linked list (src/lws_glue.cpp, src/mod_audio_stream.c) are those of a queue.
use mod_audio_stream.Common.{
  ℕ, ◌≡◌, refl, sym, ap, subst, ◌∙◌, false, List, [], ◌∷◌, ◌++◌, Option, none, some, arith, ◌==◌,
  ==_iff, if◌then◌else◌, if-true, if-false, ◌>>=◌, update, update-same, update-other, bind-some,
  Bool-cases, inl, inr, some_inj,
}
use mod_audio_stream.Checkpoints.{
  Checkpoint, Checkpoints, put, new_checkpoint, link_last, add_checkpoint, remove_first,
}
use mod_audio_stream.Checkpoints.Chain.{
  Cell, Cells, first_is, uncons, end_is, has, Holds, Chain, nil, cons, frame-update, last_at,
  has-last_at, last_node, retail, extend, apart,
}

-- The first node's tail is the last node.
abbrev pub TailFits : Cells → List Cell → Type 0
TailFits m [] = Unit
TailFits m (c ∷ cs) = (n : Checkpoint) × (m c.at ≡ some n) × (n.tail ≡ last_at c cs)

pub record Represents (s : Checkpoints) (cs : List Cell) : Type 0 where
  pub chain : Chain s.cells s.first cs
  pub tail : TailFits s.cells cs

last_at-append : (c x : Cell) (cs : List Cell) → last_at c (cs ++ x ∷ []) ≡ x.at
last_at-append c x [] = refl
last_at-append c x (d ∷ ds) = last_at-append d x ds

abbrev pub cell : ℕ → ℕ → List ℕ → Cell
cell a position name = record { at = a; position = position; name = name }

-- The outcome of an operation: a list that represents `cs`.
abbrev pub Gives : Option Checkpoints → List Cell → Type 0
Gives r cs = (s : Checkpoints) × (r ≡ some s) × Represents s cs

link_last-some :
    (h a : ℕ) (s : Checkpoints) (f l f' : Checkpoint)
    → s.cells h ≡ some f
    → s.cells f.tail ≡ some l
    → update s.cells f.tail (some (record l { next = some a })) h ≡ some f'
    → link_last h a s
      ≡ some (put h (record f' { tail = a }) (put f.tail (record l { next = some a }) s))
unfolding link_last
link_last-some h a s f l f' e k d =
    bind-some (s.cells h) _ f e ∙ bind-some (s.cells f.tail) _ l k ∙ bind-some _ _ f' d

not_first : (a : ℕ) (c : Cell) (cs : List Cell) → has a (c ∷ cs) ≡ false → (a == c.at) ≡ false
not_first a c cs fresh = ground (arith, fresh)

not_last :
    (a : ℕ) (c : Cell) (cs : List Cell) → has a (c ∷ cs) ≡ false → (a == last_at c cs) ≡ false
not_last a c cs fresh =
    let e = apart (last_at c cs) a (c ∷ cs) (has-last_at c cs) fresh in
    ground (arith, e, ==_iff a (last_at c cs), ==_iff (last_at c cs) a)

link-Gives :
    (a position : ℕ) (name : List ℕ) (s : Checkpoints) (c : Cell) (cs : List Cell)
    → Represents s (c ∷ cs)
    → has a (c ∷ cs) ≡ false
    → Gives
        (link_last c.at a (put a (new_checkpoint a position name) s))
        (c ∷ cs ++ cell a position name ∷ [])
link-Gives a position name s c cs r fresh =
    let x = cell a position name in
    let s' = put a (new_checkpoint a position name) s in
    let (n, stored, fits) = r.tail in
    let (l, e) = last_node c cs r.chain in
    let chain =
      subst
        (λ t.
          Chain (update s'.cells t (some (record l { next = some a }))) s.first (c ∷ cs ++ x ∷ []))
        (sym fits) (extend x c cs l a r.chain fresh e) in
    let (q, holds, _, _) = uncons chain in
    let f' : Checkpoint = record {
      next = q;
      tail = holds.tail;
      position = c.position;
      name = c.name;
    } in
    (
      _,
      link_last-some c.at a s' n l f'
          (update-other s.cells a c.at _ (not_first a c cs fresh) ∙ stored)
          (ap s'.cells fits ∙ update-other s.cells a (last_at c cs) _ (not_last a c cs fresh) ∙ e)
          holds.stored,
      record {
        chain = retail c.at a f' holds.stored chain;
        tail = (
          record f' { tail = a },
          update-same (put n.tail (record l { next = some a }) s').cells c.at _,
          sym (last_at-append c x cs),
        );
      },
    )

alone-Represents :
    (a position : ℕ) (name : List ℕ) (s : Checkpoints)
    → Represents
        (record (put a (new_checkpoint a position name) s) { first = some a })
        (cell a position name ∷ [])
alone-Represents a position name s =
    let stored = update-same s.cells a (some (new_checkpoint a position name)) in
    record {
      chain = cons (record { tail = a; stored = stored }) refl nil;
      tail = (new_checkpoint a position name, stored, refl);
    }

add-by-first :
    (a position : ℕ) (name : List ℕ) (s : Checkpoints) (p : Option ℕ)
    → s.first ≡ p
    → add_checkpoint a position name s ≡ (
        let s' = put a (new_checkpoint a position name) s in
        elim p as (λ o. Option Checkpoints) [
          | none ↦ some (record s' { first = some a })
          | some h ↦ link_last h a s'
        ])
unfolding add_checkpoint
add-by-first a position name s p e =
    let s' = put a (new_checkpoint a position name) s in
    ap
      (λ o. elim o as (λ o. Option Checkpoints) [
        | none ↦ some (record s' { first = some a })
        | some h ↦ link_last h a s'
      ])
      e

pub add_checkpoint-Gives :
    (a position : ℕ) (name : List ℕ) (s : Checkpoints) (cs : List Cell)
    → Represents s cs
    → has a cs ≡ false
    → Gives (add_checkpoint a position name s) (cs ++ cell a position name ∷ [])
add_checkpoint-Gives a position name s [] r fresh =
    (_, add-by-first a position name s none (end_is r.chain), alone-Represents a position name s)
add_checkpoint-Gives a position name s (c ∷ cs) r fresh =
    let (s', e, r') = link-Gives a position name s c cs r fresh in
    (s', add-by-first a position name s (some c.at) (first_is r.chain) ∙ e, r')

pub remove_first-Gives :
    (s : Checkpoints) (c : Cell) (cs : List Cell)
    → Represents s (c ∷ cs)
    → Gives (remove_first s) cs
unfolding remove_first
remove_first-Gives s c [] r =
    let (q, holds, _, rest) = uncons r.chain in
    let stored = (subst (Holds s.cells c) (end_is rest) holds).stored in
    (
      record { cells = update s.cells c.at none; first = none },
      bind-some s.first _ c.at (first_is r.chain) ∙ bind-some (s.cells c.at) _ _ stored,
      record { chain = nil; tail = tt },
    )
remove_first-Gives s c (d ∷ ds) r =
    let (q, holds, out, rest) = uncons r.chain in
    let stored = (subst (Holds s.cells c) (first_is rest) holds).stored in
    let (_, next, _, _) = uncons rest in
    let second : Checkpoint = record {
      next = _;
      tail = next.tail;
      position = d.position;
      name = d.name;
    } in
    let t = (subst (Holds s.cells c) (first_is rest) holds).tail in
    let s' = put d.at (record second { tail = t }) s in
    let (n, here, fits) = r.tail in
    (
      record { cells = update s'.cells c.at none; first = some d.at },
      bind-some s.first _ c.at (first_is r.chain)
          ∙ bind-some (s.cells c.at) _ _ stored
          ∙ bind-some (s.cells d.at) _ second next.stored,
      record {
        chain =
            subst (λ p. Chain (update s'.cells c.at none) p (d ∷ ds)) (first_is rest)
              (frame-update c.at none (retail d.at t second next.stored rest) out);
        tail = (
          record second { tail = t },
          update-other s'.cells c.at d.at none (not_first c.at d ds out)
              ∙ update-same s.cells d.at _,
          ap (λ (k : Checkpoint). k.tail) (some_inj (sym stored ∙ here)) ∙ fits,
        );
      },
    )

-- What processCheckpointEvent and the media callback do to the checkpoints, one after another.
pub data Operation : Type 0 where
  add : ℕ → ℕ → List ℕ → Operation
  remove : Operation

pub run_operation : Operation → Checkpoints → Option Checkpoints
run_operation (add a position name) s = add_checkpoint a position name s
run_operation remove s = remove_first s

unfoldable pub run : List Operation → Checkpoints → Option Checkpoints
unfolding run_operation
run [] s = some s
run (op ∷ ops) s = run_operation op s >>= run ops

-- The same on a queue. A new address is not in use, and only from a queue with an entry is one
-- removed.
abbrev pub queue_operation : Operation → List Cell → Option (List Cell)
queue_operation (add a position name) cs =
    if has a cs then none else some (cs ++ cell a position name ∷ [])
queue_operation remove [] = none
queue_operation remove (c ∷ cs) = some cs

abbrev pub queue_run : List Operation → List Cell → Option (List Cell)
queue_run [] cs = some cs
queue_run (op ∷ ops) cs = queue_operation op cs >>= queue_run ops

operation-Gives :
    (op : Operation) (s : Checkpoints) (cs ds : List Cell)
    → Represents s cs
    → queue_operation op cs ≡ some ds
    → Gives (run_operation op s) ds
unfolding run_operation
operation-Gives (add a position name) s cs ds r e = elim (Bool-cases (has a cs)) [
  | inl old ↦ cc (sym (if-true _ _ old) ∙ e)
  | inr new ↦
      subst (Gives (add_checkpoint a position name s)) (some_inj (sym (if-false _ _ new) ∙ e))
        (add_checkpoint-Gives a position name s cs r new)
]
operation-Gives remove s [] ds r e = cc
operation-Gives remove s (c ∷ cs) ds r e =
    subst (Gives (remove_first s)) (some_inj e) (remove_first-Gives s c cs r)

bind_inverse :
    {A C : Type 0} (m : Option A) (f : A → Option C) (c : C)
    → (m >>= f) ≡ some c
    → (a : A) × (m ≡ some a) × (f a ≡ some c)
bind_inverse none f c e = cc
bind_inverse (some a) f c e = (a, refl, e)

-- A linked list of checkpoints that represents a queue, put through any sequence of additions at
-- addresses that are not in use and removals that find an entry, never faults and represents the
-- queue that the same additions at the end and removals at the front give.
pub run-Gives :
    (ops : List Operation) (s : Checkpoints) (cs ds : List Cell)
    → Represents s cs
    → queue_run ops cs ≡ some ds
    → Gives (run ops s) ds
unfolding run
run-Gives [] s cs ds r e = (s, refl, subst (Represents s) (some_inj e) r)
run-Gives (op ∷ ops) s cs ds r e =
    let (cs', first, others) = bind_inverse (queue_operation op cs) (queue_run ops) ds e in
    let (s', did, r') = operation-Gives op s cs cs' r first in
    let (t, done, r'') = run-Gives ops s' cs' ds r' others in
    (t, bind-some (run_operation op s) (run ops) s' did ∙ done, r'')
