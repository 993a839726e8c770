-- ===== src/PageAllocator/Blocks/Picks.antt =====
-- Lists of blocks that have no page in common: a block that is taken out, and the others.
use objective_hail_os.Prelude.{ℕ, zero, suc, ◌≡◌, some, List, [], ◌∷◌, inl, inr, Option-cases}
use mathlib.Core.Path.{subst}
use mathlib.Core.Option.{some-injective, none-ne-some}
use objective_hail_os.PageAllocator.Blocks.{Block, pick, Apart, All, Disjoint}

pub All-map :
    (P Q : Block → Type 0) (bs : List Block) → ((b : Block) → P b → Q b) → All P bs → All Q bs
All-map P Q [] f all = tt
All-map P Q (b ∷ bs) f (one, all) = (f b one, All-map P Q bs f all)

Apart-sym : (b c : Block) → Apart b c → Apart c b
Apart-sym b c (inl e) = inr e
Apart-sym b c (inr e) = inl e

-- `b` is one of the blocks, and `others` are the other ones.
pub data Picks : List Block → Block → List Block → Type 0 where
  here : {b : Block} {bs : List Block} → Picks (b ∷ bs) b bs
  there : {b c : Block} {bs others : List Block} → Picks bs b others → Picks (c ∷ bs) b (c ∷ others)

pub pick-Picks :
    (i : ℕ) (bs : List Block) (found : Block × List Block)
    → pick i bs ≡ some found
    → Picks bs found.0 found.1
unfolding pick
pick-Picks i [] found e = absurd (none-ne-some found e)
pick-Picks zero (b ∷ bs) found e =
    subst (λ (t : Block × List Block). Picks (b ∷ bs) t.0 t.1) (some-injective _ found e) here
pick-Picks (suc i) (b ∷ bs) found e = elim (Option-cases (pick i bs)) [
  | inl none_there ↦ absurd (none-ne-some found (rw none_there at e))
  | inr (later, at) ↦
      let first : some (later.0, b ∷ later.1) ≡ some found = rw at at e in
      subst (λ (t : Block × List Block). Picks (b ∷ bs) t.0 t.1) (some-injective _ found first)
        (there (pick-Picks i bs later at))
]

pub Picks-All :
    (P : Block → Type 0) {bs : List Block} {b : Block} {others : List Block}
    → Picks bs b others
    → All P bs
    → P b × All P others
Picks-All P here all = all
Picks-All P (there picks) (one, all) =
    let (this, rest) = Picks-All P picks all in (this, (one, rest))

pub Picks-Disjoint :
    {bs : List Block} {b : Block} {others : List Block}
    → Picks bs b others
    → Disjoint bs
    → All (Apart b) others × Disjoint others
Picks-Disjoint here disjoint = disjoint
Picks-Disjoint (there {b = b} {c = c} picks) (apart, disjoint) =
    let (this, rest) = Picks-All (Apart c) picks apart in
    let (others_apart, others_disjoint) = Picks-Disjoint picks disjoint in
    ((Apart-sym c b this, others_apart), (rest, others_disjoint))
