-- ===== src/Jit/Emitter/Items.antt =====
-- crates/quantum-jit/src/emitter.rs: what an emitter has been told to emit.
use quantum.Prelude.{
  ℕ, ◌≡◌, ◌≢◌, List, [], ◌∷◌, Option, none, some, get_elem?, All, ◌⊎◌, ◌==◌, if◌then◌else◌,
}
use quantum.Prelude.Checked.{returns}
use quantum.Jit.Emitter.State.{
  FixupKind, Fixup, Emitter, new, position, push, make_label, bind, emit_branch, delta,
}
use quantum.Jit.Emitter.Patch.{Aims}

-- A branch to a label, pushed as a base word at an index.
pub record Branch : Type 0 where
  pub index : ℕ
  pub base : ℕ
  pub kind : FixupKind
  pub label : ℕ

-- An instruction word: one that is final, or a branch.
pub data Item : Type 0 where
  plain : (index word : ℕ) → Item
  jump : Branch → Item

abbrev pub index_of : Item → ℕ
index_of (plain index word) = index
index_of (jump b) = b.index

-- The places that labels have been bound at, as pairs of a label and an index in the code, the last
-- one first.
abbrev pub Places : Type 0
Places = List (ℕ × ℕ)

abbrev pub place_of : Places → ℕ → Option ℕ
place_of [] l = none
place_of ((k, at) ∷ places) l = if k == l then some at else place_of places l

-- Any calls of the emitter's methods, the words that they have pushed and the places where they have
-- bound labels. A place is the number of words that stand in front of it when `bind` is called.
pub data Built : Emitter → List Item → Places → Type 0 where
  fresh : Built new [] []
  pushes :
      {e e' : Emitter} {items : List Item} {places : Places} (word : ℕ)
      → Built e items places
      → push word e ≡ returns (tt, e')
      → Built e' (plain (position e) word ∷ items) places
  makes :
      {e e' : Emitter} {items : List Item} {places : Places} (label : ℕ)
      → Built e items places
      → make_label e ≡ returns (label, e')
      → Built e' items places
  binds :
      {e e' : Emitter} {items : List Item} {places : Places} (label : ℕ)
      → Built e items places
      → bind label e ≡ returns (tt, e')
      → Built e' items ((label, position e) ∷ places)
  branches :
      {e e' : Emitter} {items : List Item} {places : Places} (base : ℕ) (kind : FixupKind)
      (label : ℕ)
      → Built e items places
      → emit_branch base kind label e ≡ returns (tt, e')
      → Built e'
          (jump (record { index = position e; base = base; kind = kind; label = label }) ∷ items)
          places

-- The word in the code is the base word with the offset from the branch to the place where its
-- label was bound.
pub record Lands (places : Places) (code : List ℕ) (b : Branch) : Type 0 where
  pub at : ℕ
  pub word : ℕ
  pub bound : place_of places b.label ≡ some at
  pub stands : get_elem? code b.index ≡ some word
  pub aims : Aims b.base b.kind (delta at b.index) word

-- An item in finished code.
abbrev pub Stands : Places → List ℕ → Item → Type 0
Stands places code (plain index word) = get_elem? code index ≡ some word
Stands places code (jump b) = Lands places code b

-- The same by the emitter's own table of labels.
pub record LandsBy (labels : List (Option ℕ)) (code : List ℕ) (b : Branch) : Type 0 where
  pub at : ℕ
  pub word : ℕ
  pub bound : get_elem? labels b.label ≡ some (some at)
  pub stands : get_elem? code b.index ≡ some word
  pub aims : Aims b.base b.kind (delta at b.index) word

abbrev pub StandsBy : List (Option ℕ) → List ℕ → Item → Type 0
StandsBy labels code (plain index word) = get_elem? code index ≡ some word
StandsBy labels code (jump b) = LandsBy labels code b

-- No fixup is about the word at `i`.
abbrev pub Free : List Fixup → ℕ → Type 0
Free fs i = All (λ (f : Fixup). f.word_index ≢ i) fs

-- One fixup, and no other, is about the branch.
abbrev pub Waits : List Fixup → Branch → Type 0
Waits [] b = ⊥
Waits (f ∷ fs) b =
    ((f ≡ record { word_index = b.index; kind = b.kind; label = b.label }) × Free fs b.index)
    ⊎ ((f.word_index ≢ b.index) × Waits fs b)

-- An item in unfinished code: its word is final, or its fixup waits.
abbrev pub Status : List (Option ℕ) → List Fixup → List ℕ → Item → Type 0
Status labels fs code (plain index word) = Free fs index × (get_elem? code index ≡ some word)
Status labels fs code (jump b) =
    (Waits fs b × (get_elem? code b.index ≡ some b.base))
    ⊎ (Free fs b.index × LandsBy labels code b)
