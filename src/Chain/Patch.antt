-- ===== src/Chain/Patch.antt =====
-- Chains with one part rewritten: the cells from an address on, and the link back to the cell
-- before them.
use vgc_malloc.Base.{
  ◌+◌, ◌≡◌, refl, ◌<◌, ◌≤◌, ◌≢◌, ◌⊎◌, true, some, List, [], ◌∷◌, ◌++◌, arith, eqb_false, eqb_true,
  length,
}
use vgc_malloc.Memory.{Ptr, null, State, ok, update}
use vgc_malloc.Memory.Ends.{load_block-ok, store_block-ok}
use vgc_malloc.Malloc.Block.{set_prev}
use vgc_malloc.Chain.{Cell, Blocks, header, end_of, span, link, Chain, last}
use vgc_malloc.Chain.Frame.{frame, Chain-split, Chain-join}

module _ {ℓ} {A : Type ℓ} (f : Ptr → A) (p : Ptr) (a : A) where
  pub update_at : {q : Ptr} → q ≡ p → update f p a q ≡ a
  update_at e = rw (eqb_true e)

  pub update_off : {q : Ptr} → q ≢ p → update f p a q ≡ f q
  update_off e = rw (eqb_false e)

-- The first of the cells at `e` points back to `pv`.
unfoldable pub relinked : Blocks → Ptr → Ptr → Ptr → List Cell → Blocks
relinked f m pv e [] = f
relinked f m pv e (d ∷ ds) = update f e (some (header m pv (link (end_of e d) ds null) d))

module _ (f : Blocks) (m pv : Ptr) where
  pub relinked_off :
      (e : Ptr) (cs : List Cell) {q : Ptr}
      → (q < e) ⊎ (e + span cs ≤ q)
      → relinked f m pv e cs q ≡ f q
  unfolding relinked
  relinked_off e [] o = refl
  relinked_off e (d ∷ ds) o = update_off f e _ (omega arith)

  pub relinked-Chain :
      (pv' e : Ptr) (cs : List Cell)
      → Chain f m pv' e cs null
      → Chain (relinked f m pv e cs) m pv e cs null
  unfolding relinked
  relinked-Chain pv' e [] h = tt
  relinked-Chain pv' e (d ∷ ds) (h, hs) = (
    update_at f e _ refl,
    frame f (update f e (some (header m pv (link (end_of e d) ds null) d))) m e (end_of e d) ds null
        hs λ q a b. update_off f e _ (omega arith),
  )

-- `if (x) x->prev = p` on the link to a chain.
pub set_prev-relinked :
    (s : State) (m pv pv' e : Ptr) (cs : List Cell)
    → Chain s.blocks m pv' e cs null
    → 0 < e
    → ((q : Ptr) → e ≤ q → q < e + span cs → s.mapped q ≡ true)
    → set_prev (link e cs null) pv s ≡ ok tt (record s { blocks = relinked s.blocks m pv e cs })
unfolding set_prev relinked
set_prev-relinked s m pv pv' e [] h pos mapped = refl
set_prev-relinked s m pv pv' e (d ∷ ds) (h, hs) pos mapped =
    let here = mapped e (omega arith) (omega arith) in
    rw
      (eqb_false {a = e} {b = 0} (omega arith), load_block-ok e s here h, store_block-ok e s _ here)

-- The cells before `q` stay, and those from `q` on are new.
pub patch :
    (f g : Blocks) (m p q : Ptr) (xs : List Cell) (c : Cell) (ys : List Cell) (d : Cell)
    (zs : List Cell)
    → q ≡ p + span xs
    → Chain f m null p (xs ++ c ∷ ys) null
    → ((a : Ptr) → a < q → g a ≡ f a)
    → Chain g m (last null p xs) q (d ∷ zs) null
    → Chain g m null p (xs ++ d ∷ zs) null
patch f g m p q xs c ys d zs e old same new =
    Chain-join g m null d zs null p q xs e
      (frame f g m null p xs q (Chain-split f m null c ys null p q xs e old).0
        λ a b b'. same a (omega arith))
      new

-- The same for any new cells that are not empty.
pub patch_cells :
    (f g : Blocks) (m p q : Ptr) (xs : List Cell) (c : Cell) (ys cs : List Cell)
    → 0 < length cs
    → q ≡ p + span xs
    → Chain f m null p (xs ++ c ∷ ys) null
    → ((a : Ptr) → a < q → g a ≡ f a)
    → Chain g m (last null p xs) q cs null
    → Chain g m null p (xs ++ cs) null
patch_cells f g m p q xs c ys [] n e old same new = absurd (omega arith)
patch_cells f g m p q xs c ys (d ∷ zs) n e old same new =
    patch f g m p q xs c ys d zs e old same new
