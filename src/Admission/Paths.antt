-- ===== src/Admission/Paths.antt =====
-- The paths that the plugin writes, and the places that they name.
use Prim.Native.String
use text.Mathlib.TextLemmas.{nil-append, append-nil}
use karydia.Common.{ℕ, String, ◌≡◌, some, inl, inr, arith, ◌∷◌, []}
use karydia.Common.Decimal.{itoa, parse_index-itoa, Lacks-itoa}
use karydia.Common.Pointer.{tokens, unescape, unescape-replace, Lacks-replace, unescape_of_Lacks}
use karydia.Common.Text.{
  Lacks, concat, split, replace, split-append, split-cons, glue, split_of_Lacks,
}
use karydia.Admission.Patch.{annotation, container_context, container_escalation, locate}

-- The path of an annotation names that annotation, for every key without a tilde.
pub locate-annotation :
    (key : String)
    → Lacks b'~' key
    → locate (tokens (concat ("/metadata/annotations/" ∷ replace b'/' "~1" key ∷ [])))
      ≡ some (annotation key)
unfolding tokens split locate unescape
locate-annotation key h = rw (
  split-append b'/' "/metadata/annotations/" (replace b'/' "~1" key),
  split_of_Lacks b'/' (replace b'/' "~1" key) (Lacks-replace key),
  nil-append,
  unescape-replace key h,
)

-- A path below a container's index, `rest` being what follows the index.
split-container :
    (i : ℕ) (rest : String)
    → split b'/' (concat ("/spec/containers/" ∷ itoa i ∷ rest ∷ []))
      ≡ glue ("" ∷ "spec" ∷ "containers" ∷ itoa i ∷ []) (split b'/' rest)
unfolding split
split-container i rest =
    let (x, xs, e) = split-cons b'/' rest in
    rw (
      split-append b'/' "/spec/containers/" (String.◌++◌ (itoa i) rest),
      split-append b'/' (itoa i) rest,
      split_of_Lacks b'/' (itoa i) (Lacks-itoa b'/' i (inl (omega arith))),
      e,
      nil-append,
    )

pub locate-container_context :
    (i : ℕ)
    → locate (tokens (concat ("/spec/containers/" ∷ itoa i ∷ "/securityContext" ∷ [])))
      ≡ some (container_context i)
unfolding tokens locate unescape split
locate-container_context i = rw (
  split-container i "/securityContext",
  append-nil,
  unescape_of_Lacks (itoa i) (Lacks-itoa b'~' i (inr (omega arith))),
  parse_index-itoa i,
)

pub locate-container_escalation :
    (i : ℕ)
    → locate (
        tokens (
          concat ("/spec/containers/" ∷ itoa i ∷ "/securityContext/allowPrivilegeEscalation" ∷ [])))
      ≡ some (container_escalation i)
unfolding tokens locate unescape split
locate-container_escalation i = rw (
  split-container i "/securityContext/allowPrivilegeEscalation",
  append-nil,
  unescape_of_Lacks (itoa i) (Lacks-itoa b'~' i (inr (omega arith))),
  parse_index-itoa i,
)
