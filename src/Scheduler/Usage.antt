-- ===== src/Scheduler/Usage.antt =====
-- `_gpu_usage` against its meaning: the sum of what the instances reserve on a GPU.
use inferna_next.Base.{
  Bool-cases, List, [], arith, if◌then◌else◌, inl, inr, ℕ, ◌*◌, ◌+◌, ◌==◌, ◌∷◌, ◌≡◌,
}
use inferna_next.Models.{ModelInstance}
use inferna_next.Scheduler.{Usage, gpu_usage, gpu_usage_from, usage_add, usage_add_all, usage_get}

-- How often an index stands in the list.
abbrev pub occurrences : ℕ → List ℕ → ℕ
occurrences k [] = 0
occurrences k (i ∷ is) = (if i == k then 1 else 0) + occurrences k is

-- The MB that the instances reserve on GPU `k`.
abbrev pub reserved_mb : ℕ → List ModelInstance → ℕ
reserved_mb k [] = 0
reserved_mb k (i ∷ is) = occurrences k i.gpu_indexes * i.model.vram_required_mb + reserved_mb k is

usage_get-add :
    (u : Usage) (j k mb : ℕ)
    → usage_get (usage_add u j mb) k ≡ usage_get u k + (if j == k then mb else 0)
unfolding usage_get usage_add
usage_get-add [] j k mb = ground arith
usage_get-add ((i, v) ∷ u) j k mb = ground (arith, usage_get-add u j k mb)

one_more :
    (i k n mb : ℕ) → (if i == k then mb else 0) + n * mb ≡ ((if i == k then 1 else 0) + n) * mb
one_more i k n mb = elim (Bool-cases (i == k)) [
  | inl e ↦ rw e (omega arith)
  | inr e ↦ rw e (omega arith)
]

usage_get-add_all :
    (u : Usage) (is : List ℕ) (k mb : ℕ)
    → usage_get (usage_add_all u is mb) k ≡ usage_get u k + occurrences k is * mb
unfolding usage_add_all
usage_get-add_all u [] k mb = omega arith
usage_get-add_all u (i ∷ is) k mb = omega (
  arith,
  usage_get-add_all (usage_add u i mb) is k mb,
  usage_get-add u i k mb,
  one_more i k (occurrences k is) mb,
)

usage_get-from :
    (u : Usage) (is : List ModelInstance) (k : ℕ)
    → usage_get (gpu_usage_from u is) k ≡ usage_get u k + reserved_mb k is
unfolding gpu_usage_from
usage_get-from u [] k = omega arith
usage_get-from u (i ∷ is) k = omega (
  arith,
  usage_get-from (usage_add_all u i.gpu_indexes i.model.vram_required_mb) is k,
  usage_get-add_all u i.gpu_indexes k i.model.vram_required_mb,
)

-- For every GPU index, `_gpu_usage` holds the sum, over the instances, of the model's VRAM for each
-- time that the index stands in the instance's list; an index that no instance names reads as 0.
pub gpu_usage-sums :
    (is : List ModelInstance) (k : ℕ) → usage_get (gpu_usage is) k ≡ reserved_mb k is
unfolding gpu_usage usage_get
gpu_usage-sums is k = omega (arith, usage_get-from [] is k)
