-- ===== src/Controller/Tls/Serving.antt =====
-- The stored certificate, and the test for its renewal.
use text.Mathlib.TextPositions.{eq_refl}
use build_operator.Prelude.{
  String, ◌==◌, eq_iff, ◌≡◌, ◌⊎◌, refl, inl, inr, Bool, true, false, some, [], ◌∷◌, Option-cases,
  Bool-cases, Dict, lookup, insert, lookup-insert, index, arith,
}
use build_operator.Prelude.Int.{◌+ℤ◌, ◌≤ℤ◌, ltb_ℤ}
use build_operator.Exec.{Result, ok, err, ◌>>=◌}
use build_operator.Kube.Meta.{Instant, annotation}
use build_operator.Kube.Storage.{Secret, entry}
use build_operator.Controller.Tls.Certificates.{
  Authority, CertAndKey, parse_cert_and_key, sign_server_cert, renew_before, cert_host_annotation,
}
use build_operator.Controller.Tls.Server.{
  server_cert_needs_renewal, renewal_of, expires_soon, annotate_host,
}
use build_operator.Controller.Tls.Renewal.{IsSigned, IsFor, second_look}
use build_operator.World.{World, read_clock}
use build_operator.World.Laws.{IsReliable, IsUnchanged}

index-insert : (key value : String) (m : Dict String) → index (insert key value m) key ≡ value
index-insert key value m = ground (arith, lookup-insert key key value m, eq_refl key)

pub annotation-annotate_host :
    (W : World) (sec : Secret) (host : String)
    → annotation (annotate_host W sec host) cert_host_annotation ≡ host
unfolding annotate_host
annotation-annotate_host W sec host = elim (Option-cases sec.meta.annotations) [
  | inl absent ↦ rw absent (index-insert cert_host_annotation host [])
  | inr (m, there) ↦ rw there (index-insert cert_host_annotation host m)
]

pub one_annotation :
    (host : String)
    → annotation (some ((cert_host_annotation, host) ∷ [])) cert_host_annotation ≡ host
unfolding lookup
one_annotation host = refl

module _ (W : World) (R : IsReliable W) where
  -- A secret that is noted for the host, with a certificate and a key that parse.
  pub record IsNoted (host : String) (sec : Secret) : Type 0 where
    pub named : annotation sec.meta.annotations cert_host_annotation ≡ host
    pub parsed : CertAndKey W
    pub parses : parse_cert_and_key W (entry sec "tls.crt") (entry sec "tls.key") ≡ ok parsed

  -- At least 30 days of its certificate are left.
  pub record IsLasting (host : String) (now : Instant) (sec : Secret) : Type 0 where
    pub noted : IsNoted host sec
    pub left : now +ℤ renew_before ≤ℤ noted.parsed.0.not_after

  -- Its certificate has been signed for the host by the authority, from the state `t` or from the
  -- one after a look at the clock there.
  pub record IsFresh (ca : Authority W) (host : String) (t : W.State) (sec : Secret) : Type 0 where
    pub noted : IsNoted host sec
    pub authority : entry sec "ca.crt" ≡ ca.pem
    pub before : W.State
    pub moment : (before ≡ t) ⊎ (before ≡ (W.now t).1)
    pub certified : IsFor W R ca host (second_look W R before) noted.parsed

  -- The answer of the test for renewal, and what a certificate that is kept is like.
  pub record IsAnswered (sec : Secret) (host : String) (s : W.State) (r : Result Bool × W.State)
      : Type 0 where
    pub renew : Bool
    pub answer : r.0 ≡ ok renew
    pub still : IsUnchanged W R.peek s r.1
    pub kept : renew ≡ false → IsLasting host (W.now s).0 sec
    pub moment : (r.1 ≡ s) ⊎ (r.1 ≡ (W.now s).1)

  renewal_of-IsAnswered :
      (sec : Secret) (host : String) (s : W.State) (p : Result (CertAndKey W))
      → annotation sec.meta.annotations cert_host_annotation ≡ host
      → parse_cert_and_key W (entry sec "tls.crt") (entry sec "tls.key") ≡ p
      → IsAnswered sec host s (renewal_of W p s)
  unfolding renewal_of expires_soon read_clock ◌>>=◌
  renewal_of-IsAnswered sec host s (err e) named parses = record {
    renew = true;
    answer = refl;
    still = λ k key. refl;
    kept = λ no. cc;
    moment = inl refl;
  }
  renewal_of-IsAnswered sec host s (ok parsed) named parses = record {
    renew = ltb_ℤ parsed.0.not_after ((W.now s).0 +ℤ renew_before);
    answer = refl;
    still = λ k key. R.now_lem s k key;
    kept = λ no. record {
      noted = record { named = named; parsed = parsed; parses = parses };
      left = ground arith;
    };
    moment = inr refl;
  }

  pub server_cert_needs_renewal-IsAnswered :
      (sec : Secret) (host : String) (s : W.State)
      → IsAnswered sec host s (server_cert_needs_renewal W sec host s)
  unfolding server_cert_needs_renewal ◌>>=◌
  server_cert_needs_renewal-IsAnswered sec host s =
      elim (Bool-cases (annotation sec.meta.annotations cert_host_annotation == host)) [
        | inl same ↦ rw same (renewal_of-IsAnswered sec host s _ ((eq_iff _ host).0 same) refl)
        | inr other ↦ rw other (record {
          renew = true;
          answer = refl;
          still = λ k key. refl;
          kept = λ no. cc;
          moment = inl refl;
        })
      ]

  -- The secret that is written holds the certificate that was signed.
  pub signed-IsFresh :
      (host : String) (ca : Authority W) (t u : W.State) (sec : Secret)
      (g : IsSigned W R ca host u (sign_server_cert W ca host u))
      → (u ≡ t) ⊎ (u ≡ (W.now t).1)
      → annotation sec.meta.annotations cert_host_annotation ≡ host
      → sec.contents ≡ ("ca.crt", ca.pem) ∷ ("tls.crt", g.signed.0) ∷ ("tls.key", g.signed.1) ∷ []
      → IsFresh ca host t sec
  unfolding entry lookup
  signed-IsFresh host ca t u sec g moment named e = record {
    noted = record { named = named; parsed = g.parsed; parses = rw e g.parses };
    authority = rw e refl;
    before = u;
    moment = moment;
    certified = g.certified;
  }
