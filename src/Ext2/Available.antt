-- ===== src/Ext2/Available.antt =====
-- kernel/drivers/ext2.cpp, `_get_available_inode_idx`: the first free entry of the cache.
use juos.Prelude.{
  ℕ, zero, suc, ◌+◌, ◌≤◌, ◌<◌, ◌≡◌, ◌≢◌, inl, inr, List, [], ◌∷◌, some, ◌==◌, arith, Bool-cases,
  length, set,
}
use juos.Ext2.Volume.{FileInode}
use juos.Ext2.File.{available_from}

-- The entry that is found is in the cache.
pub available_from-bounds :
    (i idx : ℕ) (cache : List FileInode)
    → available_from i cache ≡ some idx
    → (i < idx) × (idx ≤ i + length cache)
unfolding available_from
available_from-bounds i idx [] e = ground arith
available_from-bounds i idx (f ∷ cache) e =
    let rest = available_from-bounds (i + 1) idx cache in ground arith

-- After the entry that was found is taken, only a later one is found.
pub available_from-set :
    (i idx j k : ℕ) (taken : FileInode) (cache : List FileInode)
    → available_from i cache ≡ some idx
    → k + i + 1 ≡ idx
    → taken.inode_idx ≢ 0
    → available_from i (set cache k taken) ≡ some j
    → idx < j
unfolding available_from
available_from-set i idx j k taken [] e at ne e' = ground arith
available_from-set i idx j zero taken (f ∷ cache) e at ne e' =
    let bounds = available_from-bounds (i + 1) j cache in ground arith
available_from-set i idx j (suc k) taken (f ∷ cache) e at ne e' =
    let bounds = available_from-bounds (i + 1) idx cache in
    elim (Bool-cases (f.inode_idx == 0)) [
      | inl free ↦ ground arith
      | inr used ↦
          available_from-set (i + 1) idx j k taken cache (ground arith) (omega (arith, at)) ne
            (ground arith)
    ]
