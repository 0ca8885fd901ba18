-- ===== src/HttpResponse/Gen/Rounds.antt =====
-- The rounds of http_response_gen of http_response.c.
use oserver.Prelude.{
  ℕ, suc, ◌+◌, ◌≢◌, ◌≡◌, refl, ap, subst, ◌++◌, pos_part, Option, some, List, [], ◌∷◌, ℤ, pos,
  Bool-cases, Option-cases, inl, inr, length,
}
use oserver.HttpHeader.ToStr.{Written, leb_ℤ, http_header_to_str}
use oserver.HttpVersion.{http_version_len, http_version_to_str}
use oserver.HttpResponse.{
  HttpResponse, GenStatus, gen_status_version, gen_status_code, gen_status_headers,
  gen_status_content, gen_status_error, http_response_code,
}
use oserver.HttpResponse.Gen.{
  Gen, Generated, out_of_fuel, fault, generated, put, gen_start, next_round, gen_rank, gen_headers,
  gen_step, gen_loop, http_response_gen,
}

module _ {F : Type 0} (read : F → ℕ → ℤ → Option (List ℕ) × F) where
  -- The loop returns, or meets a fault.
  abbrev Ends : Generated F → Type 0
  Ends out_of_fuel = ⊥
  Ends fault = Unit
  Ends (generated res g) = Unit

  pub round :
      (fuel : ℕ) (res : HttpResponse) (g : Gen F) (s : GenStatus)
      → res.gen_status ≡ s
      → gen_loop read (suc fuel) res g
        ≡ next_round (gen_loop read fuel) (gen_rank s) (gen_step read res g s)
  unfolding gen_loop
  round fuel res g s e =
      ap (λ (s : GenStatus). next_round (gen_loop read fuel) (gen_rank s) (gen_step read res g s)) e

  error-Ends :
      (fuel : ℕ) (res : HttpResponse) (g : Gen F)
      → res.gen_status ≡ gen_status_error
      → Ends (gen_loop read (suc fuel) res g)
  error-Ends fuel res g e = rw (round fuel res g gen_status_error e) (unfold gen_step in tt)

  content-Ends :
      (fuel : ℕ) (res : HttpResponse) (g : Gen F)
      → res.gen_status ≡ gen_status_content
      → Ends (gen_loop read (suc fuel) res g)
  content-Ends fuel res g e =
      rw (round fuel res g gen_status_content e) (unfold gen_step in rw (e) tt)

  -- The headers may leave the status or go on to the content.
  after_headers :
      (fuel : ℕ) (res : HttpResponse) (g : Gen F) (w : Written)
      → Ends (next_round (gen_loop read (suc fuel)) 2 (gen_headers res g (some w)))
  unfolding gen_loop gen_step
  after_headers fuel res g w = elim (Bool-cases w.is_end) [
    | inl over ↦ rw (over) tt
    | inr not_yet ↦ rw (not_yet) tt
  ]

  headers-Ends :
      (fuel : ℕ) (res : HttpResponse) (g : Gen F)
      → res.gen_status ≡ gen_status_headers
      → Ends (gen_loop read (suc (suc fuel)) res g)
  unfolding gen_step
  headers-Ends fuel res g e =
      rw (round (suc fuel) res g gen_status_headers e)
        (elim (Option-cases (http_header_to_str res.headers g.size g.is_header_end)) [
          | inl faults ↦ rw (gen_step, faults) tt
          | inr (w, answer) ↦ rw (gen_step, answer) (after_headers fuel res g w)
        ])

  code-Ends :
      (fuel : ℕ) (res : HttpResponse) (g : Gen F)
      → res.gen_status ≡ gen_status_code
      → Ends (gen_loop read (suc (suc (suc fuel))) res g)
  unfolding gen_step
  code-Ends fuel res g e =
      rw (round (suc (suc fuel)) res g gen_status_code e)
        (elim (Bool-cases (leb_ℤ (pos (length (http_response_code res.status) + 2)) g.size)) [
          | inl fits ↦
              rw (gen_step, fits)
                (headers-Ends fuel (record res { gen_status = gen_status_headers })
                  (put (http_response_code res.status ++ 13 ∷ 10 ∷ []) g) refl)
          | inr small ↦ rw (gen_step, small, e) tt
        ])

  version-Ends :
      (res : HttpResponse) (g : Gen F)
      → res.gen_status ≡ gen_status_version
      → Ends (gen_loop read 4 res g)
  unfolding gen_step
  version-Ends res g e =
      rw (round 3 res g gen_status_version e)
        (elim (Bool-cases (leb_ℤ (pos (http_version_len res.version)) g.size)) [
          | inl fits ↦
              rw (gen_step, fits)
                (code-Ends 0 (record res { gen_status = gen_status_code })
                  (put (http_version_to_str res.version (pos_part g.size)).0 g) refl)
          | inr small ↦ rw (gen_step, small, e) tt
        ])

  ends :
      (res : HttpResponse) (g : Gen F) (s : GenStatus)
      → res.gen_status ≡ s
      → Ends (gen_loop read 4 res g)
  ends res g gen_status_version e = version-Ends res g e
  ends res g gen_status_code e = code-Ends 1 res g e
  ends res g gen_status_headers e = headers-Ends 2 res g e
  ends res g gen_status_content e = content-Ends 3 res g e
  ends res g gen_status_error e = error-Ends 3 res g e

  -- Whatever the response, the buffer's size and the files, a call leaves its loop after at most four
  -- rounds.
  pub response_gen-Ends :
      (res : HttpResponse) (size : ℤ) (files : F)
      → http_response_gen read res size files ≢ out_of_fuel
  unfolding http_response_gen
  response_gen-Ends res size files e =
      subst Ends (e) (ends res (gen_start size files) res.gen_status refl)
