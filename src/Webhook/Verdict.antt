-- ===== src/Webhook/Verdict.antt =====
-- How the webhook combines the responses of its plugins.
use mathlib.Core.Path.{subst}
use karydia.Common.{
  ℕ, ◌+◌, ◌≤◌, ◌<◌, Bool, true, false, ◌≡◌, ◌↔◌, refl, ◌∙◌, Option, none, some, List, [], ◌∷◌,
  arith, not_nil, All, if◌then◌else◌, inl, inr, Bool-cases,
}
use karydia.Common.Run.{returns}
use karydia.Kube.Review.{
  Bytes, AdmissionReview, AdmissionResponse, allow_admission_response, err_to_admission_response,
}
use karydia.Webhook.{
  AdmissionPlugin, Webhook, already_patched, Next, stop, continue, look_at, admit_from, admit,
}

-- The plugins return these responses, in order.
abbrev pub Answer : List AdmissionPlugin → AdmissionReview → Bool → List AdmissionResponse → Type 0
Answer [] ar m [] = Unit
Answer (p ∷ ps) ar m (r ∷ rs) = (p ar m ≡ returns r) × Answer ps ar m rs
Answer _ ar m _ = ⊥

-- The number of responses with a patch.
abbrev pub patch_count : List AdmissionResponse → ℕ
patch_count [] = 0
patch_count (r ∷ rs) = (if not_nil r.patch then 1 else 0) + patch_count rs

abbrev one_if : Option AdmissionResponse → ℕ
one_if none = 0
one_if (some _) = 1

abbrev Allowed : AdmissionResponse → Type 0
Allowed r = r.allowed ≡ true

abbrev AllowedIf : Option AdmissionResponse → Type 0
AllowedIf none = Unit
AllowedIf (some r) = Allowed r

-- The patch of the first response that has one.
abbrev pub first_patch : Option AdmissionResponse → List AdmissionResponse → Option Bytes
first_patch (some q) rs = q.patch
first_patch none [] = none
first_patch none (r ∷ rs) = if not_nil r.patch then r.patch else first_patch none rs

-- The response `r` is right for the plugins' responses `rs`, when `patched` is the one that was kept.
record IsRight (patched : Option AdmissionResponse) (rs : List AdmissionResponse)
    (r : AdmissionResponse) : Type 0 where
  sound : Allowed r → All Allowed rs × (one_if patched + patch_count rs ≤ 1)
  complete : All Allowed rs → one_if patched + patch_count rs ≤ 1 → Allowed r
  same : Allowed r → r.patch ≡ first_patch patched rs

-- What one look tells: the loop stops with a denial that is right, or it goes on with what counts.
data Look (r : AdmissionResponse) (patched : Option AdmissionResponse) : Next → Type 0 where
  denied :
      (s : AdmissionResponse)
      → s.allowed ≡ false
      → (Allowed r → 1 < one_if patched + patch_count (r ∷ []))
      → Look r patched (stop s)
  passed :
      (patched' : Option AdmissionResponse)
      → Allowed r
      → AllowedIf patched'
      → one_if patched' ≡ one_if patched + patch_count (r ∷ [])
      → ((rs : List AdmissionResponse) → first_patch patched' rs ≡ first_patch patched (r ∷ rs))
      → Look r patched (continue patched')

already_patched-allowed : already_patched.allowed ≡ false
unfolding err_to_admission_response
already_patched-allowed = refl

first_patch-skip :
    (patched : Option AdmissionResponse) (r : AdmissionResponse) (rs : List AdmissionResponse)
    → not_nil r.patch ≡ false
    → first_patch patched rs ≡ first_patch patched (r ∷ rs)
first_patch-skip none r rs plain = rw plain
first_patch-skip (some q) r rs plain = refl

-- `look_at` on its four branches, each with what it tells.
look :
    (r : AdmissionResponse) (patched : Option AdmissionResponse)
    → AllowedIf patched
    → Look r patched (look_at r patched)
unfolding look_at
look r patched h = elim (Bool-cases r.allowed) [
  | inr denies ↦ subst (Look r patched) (ground arith) (denied r denies (λ allows. cc))
  | inl allows ↦ elim (Bool-cases (not_nil r.patch)) [
    | inr plain ↦
        subst (Look r patched) (ground arith)
          (passed patched allows h (ground arith) (λ rs. first_patch-skip patched r rs plain))
    | inl patches ↦ look_patch patched allows patches
  ]
]
  where
    look_patch :
        (patched : Option AdmissionResponse)
        → Allowed r
        → not_nil r.patch ≡ true
        → Look r patched (look_at r patched)
    look_patch none allows patches =
        subst (Look r none) (ground arith)
          (passed (some r) allows allows (ground arith) (λ rs. rw patches))
    look_patch (some q) allows patches =
        subst (Look r (some q)) (ground arith)
          (denied already_patched already_patched-allowed (λ _. ground arith))

module _ (ps : List AdmissionPlugin) (rs : List AdmissionResponse) (ar : AdmissionReview)
    (m : Bool) where
  abbrev Reaches : Option AdmissionResponse → Type 0
  Reaches patched =
      (x : AdmissionResponse) × (admit_from ps ar m patched ≡ returns x) × IsRight patched rs x

  follow :
      (r : AdmissionResponse) (patched : Option AdmissionResponse) {n : Next}
      → Look r patched n
      → ((patched' : Option AdmissionResponse) → AllowedIf patched' → Reaches patched')
      → (x : AdmissionResponse) × (elim n [
        | stop s ↦ returns s
        | continue patched' ↦ admit_from ps ar m patched'
      ]
          ≡ returns x)
        × IsRight patched (r ∷ rs) x
  follow r patched (denied s denies excess) rest = (
    s,
    refl,
    record {
      sound = λ allowed. cc;
      complete = λ all few. absurd (omega (arith, excess all.0));
      same = λ allowed. cc;
    },
  )
  follow r patched (passed patched' allows kept count first) rest =
      let (x, e, right) = rest patched' kept in
      (
        x,
        e,
        record {
          sound = λ allowed. let (all, few) = right.sound allowed in ((allows, all), omega arith);
          complete = λ all few. right.complete all.1 (omega arith);
          same = λ allowed. right.same allowed ∙ first rs;
        },
      )

admit_from-IsRight :
    (ps : List AdmissionPlugin) (rs : List AdmissionResponse) (ar : AdmissionReview) (m : Bool)
    (patched : Option AdmissionResponse)
    → AllowedIf patched
    → Answer ps ar m rs
    → Reaches ps rs ar m patched
unfolding admit_from
admit_from-IsRight [] [] ar m none h a = (
  allow_admission_response,
  refl,
  unfold allow_admission_response in
      record { sound = λ _. (tt, omega arith); complete = λ _ _. refl; same = λ _. refl },
)
admit_from-IsRight [] [] ar m (some r) h a =
    (r, refl, record { sound = λ _. (tt, omega arith); complete = λ _ _. h; same = λ _. refl })
admit_from-IsRight (p ∷ ps) (r ∷ rs) ar m patched h (e, a) = rw e (
    follow ps rs ar m r patched (look r patched h)
      (λ patched' kept. admit_from-IsRight ps rs ar m patched' kept a))
admit_from-IsRight [] (_ ∷ _) ar m patched h a = absurd a
admit_from-IsRight (_ ∷ _) [] ar m patched h a = absurd a

-- If all plugins return, so does the webhook; its response allows exactly when every plugin's does and
-- at most one of them has a patch, and then it carries that patch, or none.
pub admit-verdict :
    (wh : Webhook) (rs : List AdmissionResponse) (ar : AdmissionReview) (m : Bool)
    → Answer wh.admission_plugins ar m rs
    → (r : AdmissionResponse) × (admit wh ar m ≡ returns r)
      × ((r.allowed ≡ true) ↔ (All (λ x. x.allowed ≡ true) rs × (patch_count rs ≤ 1)))
      × (r.allowed ≡ true → r.patch ≡ first_patch none rs)
unfolding admit
admit-verdict wh rs ar m a =
    let (r, e, right) = admit_from-IsRight wh.admission_plugins rs ar m none tt a in
    (
      r,
      e,
      (
        λ allowed. let (all, few) = right.sound allowed in (all, omega arith),
        λ (all, few). right.complete all (omega arith),
      ),
      right.same,
    )
