-- ===== src/Controller/Endpoint/Counting.antt =====
-- What the loop over the pods finds.
use text.Mathlib.TextLemmas.{cons-append, cons≢nil}
use build_operator.Prelude.{
  ℕ, ◌+◌, ◌<◌, ◌^◌, String, ◌==◌, eq_iff, ◌≡◌, ◌≢◌, refl, sym, ◌∙◌, false, List, [], ◌∷◌, length,
  arith, inl, inr, Bool-cases, if◌then◌else◌,
}
use build_operator.Prelude.Int.{pos, increment32}
use build_operator.Kube.Workload.{Pod}
use build_operator.Controller.Endpoint.{is_serving, pod_endpoint, scan_pods}

-- The running pods that have an address.
unfoldable pub serving : List Pod → List Pod
serving [] = []
serving (p ∷ pods) = let rest = serving pods in if is_serving p then p ∷ rest else rest

abbrev pub first_endpoint : List Pod → String
first_endpoint [] = ""
first_endpoint (p ∷ pods) = pod_endpoint p

head : (p : Pod) → pod_endpoint p ≢ ""
head p e = cons≢nil (sym (cons-append _ _ _) ∙ e)

endpoint-ne-empty : (p : Pod) → (pod_endpoint p == "") ≡ false
endpoint-ne-empty p = ground (arith, eq_iff (pod_endpoint p) "", head p)

increment32_small : (n : ℕ) → n + 1 < 2 ^ 31 → increment32 (pos n) ≡ pos (n + 1)
unfolding increment32
increment32_small n h = ground arith

scan_more :
    (endpoint : String) (n : ℕ) (pods : List Pod)
    → (endpoint == "") ≡ false
    → n + length (serving pods) < 2 ^ 31
    → scan_pods endpoint (pos n) pods ≡ (endpoint, pos (n + length (serving pods)))
unfolding scan_pods serving
scan_more endpoint n [] set h = ground arith
scan_more endpoint n (p ∷ pods) set h = elim (Bool-cases (is_serving p)) [
  | inl here ↦ rw here (
      rw (set, increment32_small n (ground (arith, here)))
        (scan_more endpoint (n + 1) pods set (ground (arith, here)) ∙ ground arith))
  | inr absent ↦ rw absent (scan_more endpoint n pods set (ground (arith, absent)))
]

-- Where fewer than 2^31 pods serve, the endpoint is that of the first serving pod, or empty if
-- there is none, and the count is their number.
pub scan_pods_lem :
    (pods : List Pod)
    → length (serving pods) < 2 ^ 31
    → scan_pods "" (pos 0) pods ≡ (first_endpoint (serving pods), pos (length (serving pods)))
unfolding scan_pods serving
scan_pods_lem [] h = refl
scan_pods_lem (p ∷ pods) h = elim (Bool-cases (is_serving p)) [
  | inl here ↦ rw here (
      scan_more (pod_endpoint p) 1 pods (endpoint-ne-empty p) (ground (arith, here)) ∙ ground arith)
  | inr absent ↦ rw absent (scan_pods_lem pods (ground (arith, absent)))
]
