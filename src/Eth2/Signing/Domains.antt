-- ===== src/Eth2/Signing/Domains.antt =====
-- src/eth2/eth_signing.rs: compute_domain and get_domain against the consensus specification.
use validator_guardian.Prelude.{
  ℕ, zero, suc, ◌≤◌, ◌≡◌, refl, ap, ◌∙◌, Option, none, some, List, [], ◌∷◌, ◌++◌, arith, ltb,
  if◌then◌else◌, length, take, drop, replicate, length-append, length-take, append-nil,
}
use validator_guardian.External.TreeHash.{TreeHash, IsTreeHash}
use validator_guardian.Eth2.Types.{Root, Epoch, Version, DomainType, ForkInfo, genesis_fork_version}
use validator_guardian.Eth2.Signing.{
  copy_over, copy_over_from, unwrap_or, compute_fork_data_root, compute_domain, get_domain,
}

-- Copying over a longer list replaces its front.
copy_over-eq :
    (src dst : List ℕ) → length src ≤ length dst → copy_over src dst ≡ src ++ drop (length src) dst
unfolding copy_over
copy_over-eq [] dst h = refl
copy_over-eq (v ∷ src) [] h = absurd (omega arith)
copy_over-eq (v ∷ src) (d ∷ dst) h = ap (λ t. v ∷ t) (copy_over-eq src dst (omega arith))

copy_over_from-append :
    (front src dst : List ℕ)
    → copy_over_from (length front) src (front ++ dst) ≡ front ++ copy_over src dst
unfolding copy_over_from
copy_over_from-append [] src dst = refl
copy_over_from-append (v ∷ front) src dst = ap (λ t. v ∷ t) (copy_over_from-append front src dst)

drop-all : (xs : List ℕ) (n : ℕ) → length xs ≤ n → drop n xs ≡ []
drop-all [] zero h = refl
drop-all [] (suc n) h = refl
drop-all (x ∷ xs) zero h = absurd (omega arith)
drop-all (x ∷ xs) (suc n) h = drop-all xs n (omega arith)

-- The two copies together, where the parts have their lengths.
assemble :
    (t fork : List ℕ)
    → length t ≡ 4
    → length fork ≡ 28
    → copy_over_from 4 fork (copy_over t (replicate 32 0)) ≡ t ++ fork
assemble t fork h k =
    let zeros : List ℕ = replicate 32 0 in
    let front : copy_over t zeros ≡ t ++ drop (length t) zeros =
      copy_over-eq t zeros (omega arith) in
    let room : List ℕ = drop (length t) zeros in
    let inner : copy_over fork room ≡ fork ++ drop (length fork) room =
      copy_over-eq fork room (rw h (omega arith)) in
    let rest : drop (length fork) room ≡ [] = drop-all room (length fork) (rw h (omega arith)) in
    rw (front, ← h)
      (copy_over_from-append t fork room
        ∙ ap (λ r. t ++ r) (inner ∙ ap (λ r. fork ++ r) rest ∙ append-nil fork))

take-append_length : (xs ys : List ℕ) → take (length xs) (xs ++ ys) ≡ xs
take-append_length [] ys = refl
take-append_length (x ∷ xs) ys = ap (λ t. x ∷ t) (take-append_length xs ys)

ltb_irreflexive : (n : ℕ) (u v : Version) → (if ltb n n then u else v) ≡ v
ltb_irreflexive n u v = ground arith

-- The fork version in force at an epoch.
pub version_at : ForkInfo → Option Epoch → Version
version_at f none = f.fork.current_version
version_at f (some e) =
    if ltb e f.fork.epoch then f.fork.previous_version else f.fork.current_version

module _ (tree : TreeHash) (is_hash : IsTreeHash tree) where
  fork_bytes :
      (fv : Version) (gvr : Root) → length (take 28 (compute_fork_data_root tree fv gvr)) ≡ 28
  unfolding compute_fork_data_root
  fork_bytes fv gvr = omega (
    arith,
    length-take 28 (compute_fork_data_root tree fv gvr),
    is_hash.length-hash_fork_data (record { current_version = fv; genesis_validators_root = gvr }),
  )

  -- For a domain type of four bytes, the copies that `compute_domain` makes into 32 zeros yield
  -- the domain type followed by the first 28 bytes of the fork data root, with the genesis fork
  -- version and the zero root where none is given.
  pub compute_domain-eq :
      (t : DomainType) (version : Option Version) (root : Option Root)
      → length t ≡ 4
      → compute_domain tree t version root
        ≡ t
          ++ take 28 (
              compute_fork_data_root tree
                (unwrap_or version genesis_fork_version)
                (unwrap_or root (replicate 32 0)))
  unfolding compute_domain
  compute_domain-eq t version root h =
      assemble t _ h
        (fork_bytes (unwrap_or version genesis_fork_version) (unwrap_or root (replicate 32 0)))

  -- A domain has 32 bytes, and its first four are the domain type.
  pub compute_domain_shape :
      (t : DomainType) (version : Option Version) (root : Option Root)
      → length t ≡ 4
      → (length (compute_domain tree t version root) ≡ 32)
        × (take 4 (compute_domain tree t version root) ≡ t)
  compute_domain_shape t version root h =
      let v = unwrap_or version genesis_fork_version in
      let r = unwrap_or root (replicate 32 0) in
      rw (compute_domain-eq t version root h) (
        omega (arith, length-append t (take 28 (compute_fork_data_root tree v r)), fork_bytes v r),
        rw (← h) (take-append_length t (take 28 (compute_fork_data_root tree v r))),
      )

  -- The fork version of a domain is the previous one before the fork's epoch, and the current one
  -- from that epoch on and where no epoch is given.
  pub get_domain-eq :
      (f : ForkInfo) (t : DomainType) (e : Option Epoch)
      → length t ≡ 4
      → get_domain tree f t e
        ≡ t ++ take 28 (compute_fork_data_root tree (version_at f e) f.genesis_validators_root)
  unfolding get_domain version_at
  get_domain-eq f t none h =
      let at_fork = ltb_irreflexive f.fork.epoch f.fork.previous_version f.fork.current_version in
      rw at_fork (compute_domain-eq t _ _ h)
  get_domain-eq f t (some e) h = compute_domain-eq t _ _ h
