-- ===== src/SharedNode/Topology.antt =====
-- The topology of a shared node: its relationships are told apart by id and by Link, and each of them has
-- its synchronization state.
use apptraverse.Prelude.{
  ℕ, zero, suc, ◌≡◌, refl, sym, ap, ◌∙◌, subst, Bool, true, false, ◌&&◌, not, Option, none, some,
  List, [], ◌∷◌, ◌++◌, map, arith, All, length, erase_at, ltb, ◌==◌, nat_eq, ==_refl, contains,
  IsDistinct, IsDistinct-snoc, any, any-append, any-erase, index_of,
}
use apptraverse.Journal.{Node}
use apptraverse.LinkSync.{LinkSyncState, LinkSyncEvent}
use apptraverse.SharedNode.{
  SharedNode, Share, ShareEvent, add_share_event, remove_share_event, change_share_access_event,
  shares_link, has_share_id, syncs_share, find_share_index, find_share_index_for_share,
  set_share_access_at,
}

-- What the `Apply` overloads assert.
unfoldable pub share_asserted : ShareEvent → SharedNode → Bool
share_asserted (add_share_event share_id link access) n =
    not (link.id == 0)
    && not (share_id == 0)
    && (find_share_index_for_share n share_id == length n.shares)
    && (find_share_index n link.id == length n.shares)
share_asserted (remove_share_event share_id) n =
    ltb (find_share_index_for_share n share_id) (length n.shares)
share_asserted (change_share_access_event share_id access) n =
    ltb (find_share_index_for_share n share_id) (length n.shares)

abbrev pub share_ids : List Share → List ℕ
share_ids = map (λ (s : Share). s.share_id)

abbrev pub link_ids : List Share → List ℕ
link_ids = map (λ (s : Share). s.link.id)

abbrev pub IsSynced : List (Option (Node LinkSyncState LinkSyncEvent)) → Share → Type 0
IsSynced states s = any (syncs_share s.share_id) states ≡ true

-- The relationships that have a state.
unfoldable pub state_ids : List (Option (Node LinkSyncState LinkSyncEvent)) → List ℕ
state_ids [] = []
state_ids (none ∷ states) = state_ids states
state_ids (some state ∷ states) = state.fields.share_id ∷ state_ids states

pub record IsConsistent (n : SharedNode) : Type 0 where
  pub ids : IsDistinct (share_ids n.shares)
  pub links : IsDistinct (link_ids n.shares)
  pub synced : All (IsSynced n.link_sync_states) n.shares
  pub sole : IsDistinct (state_ids n.link_sync_states)

pub any-has_share_id :
    (shares : List Share) (p : ℕ) → any (has_share_id p) shares ≡ contains (share_ids shares) p
unfolding any has_share_id contains
any-has_share_id [] p = refl
any-has_share_id (s ∷ shares) p = ground (arith, any-has_share_id shares p)

pub any-shares_link :
    (shares : List Share) (l : ℕ)
    → ¬ (l ≡ 0)
    → any (shares_link l) shares ≡ contains (link_ids shares) l
unfolding any shares_link contains
any-shares_link [] l h = refl
any-shares_link (s ∷ shares) l h = ground (arith, any-shares_link shares l h)

pub any-syncs_share :
    (states : List (Option (Node LinkSyncState LinkSyncEvent))) (p : ℕ)
    → any (syncs_share p) states ≡ contains (state_ids states) p
unfolding any syncs_share state_ids contains
any-syncs_share [] p = refl
any-syncs_share (none ∷ states) p = any-syncs_share states p
any-syncs_share (some state ∷ states) p = ground (arith, any-syncs_share states p)

-- An index of the length says that nothing was found.
pub none_found : (i k : ℕ) (b : Bool) → ltb i k ≡ b → (i == k) ≡ true → b ≡ false
none_found i k b h e = ground arith

module _ (f : Share → ℕ) where
  contains-erase :
      (xs : List Share) (i y : ℕ)
      → contains (map f xs) y ≡ false
      → contains (map f (erase_at xs i)) y ≡ false
  unfolding contains
  contains-erase [] i y h = h
  contains-erase (x ∷ xs) zero y h = ground arith
  contains-erase (x ∷ xs) (suc i) y h = ground (arith, contains-erase xs i y)

  pub IsDistinct-erase :
      (xs : List Share) (i : ℕ) → IsDistinct (map f xs) → IsDistinct (map f (erase_at xs i))
  IsDistinct-erase [] i d = d
  IsDistinct-erase (x ∷ xs) zero d = d.1
  IsDistinct-erase (x ∷ xs) (suc i) d = (contains-erase xs i (f x) d.0, IsDistinct-erase xs i d.1)

  pub IsDistinct-map-snoc :
      (xs : List Share) (x : Share)
      → contains (map f xs) (f x) ≡ false
      → IsDistinct (map f xs)
      → IsDistinct (map f (xs ++ x ∷ []))
  IsDistinct-map-snoc xs x h d =
      subst IsDistinct (sym (map-snoc xs x)) (IsDistinct-snoc (map f xs) (f x) h d)
    where
      map-snoc : (xs : List Share) (x : Share) → map f (xs ++ x ∷ []) ≡ map f xs ++ f x ∷ []
      map-snoc [] x = refl
      map-snoc (y ∷ ys) x = ap (◌∷◌ (f y)) (map-snoc ys x)

pub erased_is_gone :
    (xs : List Share) (p : ℕ)
    → IsDistinct (share_ids xs)
    → contains (share_ids (erase_at xs (index_of (has_share_id p) xs))) p ≡ false
unfolding contains index_of has_share_id
erased_is_gone [] p d = refl
erased_is_gone (x ∷ xs) p d = ground (arith, erased_is_gone xs p d.1, d.0)

pub All-erase : (P : Share → Type 0) (xs : List Share) (i : ℕ) → All P xs → All P (erase_at xs i)
All-erase P [] i h = h
All-erase P (x ∷ xs) zero h = h.1
All-erase P (x ∷ xs) (suc i) h = (h.0, All-erase P xs i h.1)

-- An entry belongs to one relationship.
pub syncs_share-apart :
    (p q : ℕ)
    → ¬ (p ≡ q)
    → (x : Option (Node LinkSyncState LinkSyncEvent)) → syncs_share p x ≡ true
    → syncs_share q x ≡ false
unfolding syncs_share
syncs_share-apart p q h none e = refl
syncs_share-apart p q h (some state) e = ground arith

pub IsSynced-erase :
    (shares : List Share) (states : List (Option (Node LinkSyncState LinkSyncEvent))) (p : ℕ)
    → contains (share_ids shares) p ≡ false
    → All (IsSynced states) shares
    → All (IsSynced (erase_at states (index_of (syncs_share p) states))) shares
unfolding contains
IsSynced-erase [] states p h all = tt
IsSynced-erase (s ∷ shares) states p h all = (
  any-erase (syncs_share p) (syncs_share s.share_id) states
        (syncs_share-apart p s.share_id (ground (arith, ==_refl p)))
      ∙ all.0,
  IsSynced-erase shares states p (ground arith) all.1,
)

pub IsSynced-append :
    (shares : List Share) (states more : List (Option (Node LinkSyncState LinkSyncEvent)))
    → All (IsSynced states) shares
    → All (IsSynced (states ++ more)) shares
IsSynced-append [] states more all = tt
IsSynced-append (s ∷ shares) states more all = (
  ground (arith, any-append (syncs_share s.share_id) states more, all.0),
  IsSynced-append shares states more all.1,
)

module _ (access : ℕ) where
  pub share_ids-set :
      (xs : List Share) (i : ℕ) → share_ids (set_share_access_at xs i access) ≡ share_ids xs
  unfolding set_share_access_at
  share_ids-set [] i = refl
  share_ids-set (x ∷ xs) zero = refl
  share_ids-set (x ∷ xs) (suc i) = ap (◌∷◌ x.share_id) (share_ids-set xs i)

  pub link_ids-set :
      (xs : List Share) (i : ℕ) → link_ids (set_share_access_at xs i access) ≡ link_ids xs
  unfolding set_share_access_at
  link_ids-set [] i = refl
  link_ids-set (x ∷ xs) zero = refl
  link_ids-set (x ∷ xs) (suc i) = ap (◌∷◌ x.link.id) (link_ids-set xs i)

  pub IsSynced-set :
      (states : List (Option (Node LinkSyncState LinkSyncEvent))) (xs : List Share) (i : ℕ)
      → All (IsSynced states) xs
      → All (IsSynced states) (set_share_access_at xs i access)
  unfolding set_share_access_at
  IsSynced-set states [] i all = all
  IsSynced-set states (x ∷ xs) zero all = all
  IsSynced-set states (x ∷ xs) (suc i) all = (all.0, IsSynced-set states xs i all.1)
