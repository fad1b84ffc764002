-- ===== src/Jobs/Store/Listing.antt =====
-- What the list of jobs shows to a user.
use ppvda.Jobs.Types.{Job, JobResponse}
use mathlib.Core.List.{Perm}
use mathlib.Core.List.Perm
use mathlib.Core.Logic.{if_pos, if_neg}
use ppvda.Base.{
  All, String, ◌≡◌, ◌≢◌, true, false, List, [], ◌∷◌, some, arith, map, ite, ◌++◌, string_discrete,
}
use ppvda.Base.Sort.{sort_by, IsSorted, sort_by-perm, sort_by-IsSorted, sort_by-All}
use ppvda.Jobs.Store.{JobStore, list, chosen, newer, of_user, strip_internal}

of_user-All : (user : String) (js : List Job) → All (λ j. j.user_id ≡ user) (of_user user js)
unfolding of_user
of_user-All user [] = tt
of_user-All user (j ∷ js) = ground (arith, of_user-All user js)

-- The jobs of the other users.
others : String → List Job → List Job
others user [] = []
others user (j ∷ js) = ite (string_discrete j.user_id user) (others user js) (j ∷ others user js)

others-All : (user : String) (js : List Job) → All (λ j. j.user_id ≢ user) (others user js)
unfolding others
others-All user [] = tt
others-All user (j ∷ js) = elim (string_discrete j.user_id user) [
  | yes e ↦ rw (if_pos (string_discrete j.user_id user) e _ _) (others-All user js)
  | no n ↦ rw (if_neg (string_discrete j.user_id user) n _ _) (n, others-All user js)
]

middle {ℓ} : {A : Type ℓ} (a : A) (xs ys : List A) → Perm (xs ++ a ∷ ys) (a ∷ xs ++ ys)
middle a [] ys = Perm.refl (a ∷ ys)
middle a (x ∷ xs) ys = Perm.trans (Perm.cons x (middle a xs ys)) (Perm.swap a x (xs ++ ys))

-- A job is of the user or not, and none is lost.
of_user-others-Perm : (user : String) (js : List Job) → Perm (of_user user js ++ others user js) js
unfolding of_user others
of_user-others-Perm user [] = Perm.refl []
of_user-others-Perm user (j ∷ js) = elim (string_discrete j.user_id user) [
  | yes e ↦
      rw
        (
          if_pos (string_discrete j.user_id user) e (j ∷ of_user user js) (of_user user js),
          if_pos (string_discrete j.user_id user) e (others user js) (j ∷ others user js),
        )
        (Perm.cons j (of_user-others-Perm user js))
  | no n ↦
      rw
        (
          if_neg (string_discrete j.user_id user) n (j ∷ of_user user js) (of_user user js),
          if_neg (string_discrete j.user_id user) n (others user js) (j ∷ others user js),
        )
        (Perm.trans (middle j (of_user user js) (others user js))
          (Perm.cons j (of_user-others-Perm user js)))
]

newer_total : (a b : Job) → newer a b ≡ false → newer b a ≡ true
unfolding newer
newer_total a b h = ground arith

-- What the answer to a user is made of: jobs of that user, the newest first, which with jobs of others only
-- make up the store.
pub record IsListing (s : JobStore) (user : String) (answer : List JobResponse) : Type 0 where
  pub jobs : List Job
  pub shown : answer ≡ map strip_internal jobs
  pub own : All (λ j. j.user_id ≡ user) jobs
  pub sorted : IsSorted newer jobs
  pub left_out : List Job
  pub foreign : All (λ j. j.user_id ≢ user) left_out
  pub complete : Perm (jobs ++ left_out) (map (λ e. e.1) s.jobs)

-- The list for a user, whose id is not empty, shows jobs of that user only, the newest first, each without
-- its user id and file path, and leaves out none: these jobs, with jobs of other users only, are the
-- jobs of the store in some order.
pub list-IsListing :
    (s : JobStore) (user : String) → user ≢ "" → IsListing s user (list s (some user))
unfolding list chosen
list-IsListing s user n =
    let own = of_user user (map (λ e. e.1) s.jobs) in
    record {
      jobs = sort_by newer own;
      shown = ground arith;
      own = sort_by-All newer (λ j. j.user_id ≡ user) own (of_user-All user _);
      sorted = sort_by-IsSorted newer newer_total own;
      left_out = others user (map (λ e. e.1) s.jobs);
      foreign = others-All user (map (λ e. e.1) s.jobs);
      complete =
          Perm.trans
            (Perm.append_right (others user (map (λ e. e.1) s.jobs)) (sort_by-perm newer own))
            (of_user-others-Perm user (map (λ e. e.1) s.jobs));
    }
