-- ===== src/DomainStorage/Overlay.antt =====
-- `OverlayDomainStorage` of src/overlay_domain_storage.cpp: layers are stored in an overlay in memory, and
-- read from there or else from the storage behind it. Both storages are parameters.
use apptraverse.Prelude.{
  ℕ, ◌≡◌, ◌⊎◌, refl, ◌∙◌, ap, inl, inr, List, [], ◌∷◌, arith, Bytes, nat_eq, pair_eq,
}
use apptraverse.DomainStorage.{
  Query, LoadResult, empty, removed, loaded, Storage, IsStorage, set_insert,
}

unfoldable pub union : List ℕ → List ℕ → List ℕ
union [] ys = ys
union (x ∷ xs) ys = set_insert x (union xs ys)

-- The classes of an object in the overlay and behind it.
unfoldable pub enumerate_both : List ℕ → List ℕ → List ℕ
enumerate_both above behind = union above (union behind [])

-- The overlay answers where it holds a layer or a removal.
unfoldable pub or_behind : LoadResult → LoadResult → LoadResult
or_behind empty behind = behind
or_behind above behind = above

module _ {S T : Type 0} (above : Storage S) (backing : Storage T) where
  unfoldable pub store_overlay : Query → Bytes → S × T → S × T
  store_overlay q bytes (s, t) = (above.store q bytes s, t)

  unfoldable pub load_overlay : S × T → Query → LoadResult
  load_overlay (s, t) q = or_behind (above.load s q) (backing.load t q)

  unfoldable pub remove_overlay : ℕ → S × T → S × T
  remove_overlay id (s, t) = (above.remove id s, t)

  abbrev pub overlay_storage : Storage (S × T)
  overlay_storage = record { store = store_overlay; load = load_overlay; remove = remove_overlay }

-- Which storage has answered.
or_behind-loaded :
    (above behind : LoadResult) (bytes : Bytes)
    → or_behind above behind ≡ loaded bytes
    → (above ≡ loaded bytes) ⊎ ((above ≡ empty) × (behind ≡ loaded bytes))
unfolding or_behind
or_behind-loaded empty behind bytes h = inr (refl, h)
or_behind-loaded removed behind bytes h = inl h
or_behind-loaded (loaded b) behind bytes h = inl h

or_behind-empty :
    (above behind : LoadResult)
    → or_behind above behind ≡ empty
    → (above ≡ empty) × (behind ≡ empty)
unfolding or_behind
or_behind-empty empty behind h = (refl, h)
or_behind-empty removed behind h = absurd (ground arith)
or_behind-empty (loaded b) behind h = absurd (ground arith)

above_empty : (a behind : LoadResult) → a ≡ empty → or_behind a behind ≡ behind
unfolding or_behind
above_empty a behind h = ap (λ x. or_behind x behind) h

above_loaded :
    (a behind : LoadResult) (bytes : Bytes) → a ≡ loaded bytes → or_behind a behind ≡ loaded bytes
unfolding or_behind
above_loaded a behind bytes h = ap (λ x. or_behind x behind) h

above_removed : (a behind : LoadResult) → a ≡ removed → or_behind a behind ≡ removed
unfolding or_behind
above_removed a behind h = ap (λ x. or_behind x behind) h

module _ {S T : Type 0} (above : Storage S) (backing : Storage T) (a : IsStorage above) where
  overlay_layers : IsStorage (overlay_storage above backing)
  unfolding store_overlay load_overlay remove_overlay
  overlay_layers = record {
    stored = λ q bytes (s, t). above_loaded _ (backing.load t q) bytes (a.stored q bytes s);
    kept = λ q p bytes kept (s, t) ne h.
        elim (or_behind-loaded (above.load s p) (backing.load t p) kept h) [
          | inl up ↦ above_loaded _ (backing.load t p) kept (a.kept q p bytes kept s ne up)
          | inr (none_up, down) ↦
              above_empty _ (backing.load t p) (a.missing q p bytes s ne none_up) ∙ down
        ];
    missing = λ q p bytes (s, t) ne h.
        let both = or_behind-empty (above.load s p) (backing.load t p) h in
        above_empty _ (backing.load t p) (a.missing q p bytes s ne both.0) ∙ both.1;
    apart =
        λ q p bytes (s, t) ne. ap (λ x. or_behind x (backing.load t p)) (a.apart q p bytes s ne);
    gone = λ id p (s, t) here. above_removed _ (backing.load t p) (a.gone id p s here);
    others = λ id p (s, t) ne. ap (λ x. or_behind x (backing.load t p)) (a.others id p s ne);
  }

  -- An overlay that is a storage, over any other, is a storage, and no operation writes to the one behind.
  pub overlay_storage-IsStorage :
      IsStorage (overlay_storage above backing)
      × ((q : Query) (bytes : Bytes) (st : S × T)
          → (store_overlay above backing q bytes st).1 ≡ st.1)
      × ((id : ℕ) (st : S × T) → (remove_overlay above backing id st).1 ≡ st.1)
  unfolding store_overlay remove_overlay
  overlay_storage-IsStorage = (overlay_layers, (λ q bytes st. refl), (λ id st. refl))
