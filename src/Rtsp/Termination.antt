-- ===== src/Rtsp/Termination.antt =====
-- The loop of `readResponse` ends: its fuel is enough for every text.
use moonparty.Base.Result.{err, Result-cases}
use moonparty.Base.Text.{Bytes, codes, trim_space, atoi}
use moonparty.Base.{
  ◌+◌, ◌≢◌, inl, inr, [], ◌∙◌, arith, ℤ, pos, negsuc, suc, zero, leb, length, Bool-cases,
  Option-cases,
}
use moonparty.Rtsp.Headers.{read_headers-terminates}
use moonparty.Rtsp.Reading.{
  Head, read_string, split_3, read_headers, read_body, read_rest, read_response, has_prefix,
}
use moonparty.Rtsp.{Reply, RtspError, out_of_fuel}

read_body-terminates : (n : ℤ) (s : Bytes) → read_body n s ≢ err out_of_fuel
unfolding read_body
read_body-terminates (pos zero) s = λ q. cc
read_body-terminates (pos (suc n)) s = elim (Bool-cases (leb (n + 1) (length s))) [
  | inl e ↦ rw e (λ q. cc)
  | inr e ↦ rw e (λ q. cc)
]
read_body-terminates (negsuc n) s = λ q. cc

-- The error is the same, whatever the value would have been.
err_other :
    {A B : Type 0} (e : RtspError)
    → Path (Reply A) (err e) (err out_of_fuel)
    → Path (Reply B) (err e) (err out_of_fuel)
err_other e x = cc

read_rest-terminates : (code : ℤ) (text s : Bytes) → read_rest code text s ≢ err out_of_fuel
unfolding read_rest
read_rest-terminates code text s =
    let start : Head = record { fields = []; content_length = pos 0 } in
    let ends = read_headers-terminates (length s + 1) s start (omega arith) in
    elim (Result-cases (read_headers (length s + 1) s start)) [
      | inl (e, q) ↦ rw q (λ x. ends (q ∙ err_other e x))
      | inr ((head, rest), q) ↦ elim (Result-cases (read_body head.content_length rest)) [
        | inl (e, p) ↦
            rw (q, p) (λ x. read_body-terminates head.content_length rest (p ∙ err_other e x))
        | inr (body, p) ↦ rw (q, p) (λ q. cc)
      ]
    ]

-- The fuel of the loop over the headers is enough for every text.
pub read_response-terminates : (s : Bytes) → read_response s ≢ err out_of_fuel
unfolding read_response
read_response-terminates s = elim (Option-cases (read_string s)) [
  | inl e ↦ rw (e, read_response) (λ q. cc)
  | inr ((raw, rest), e) ↦ elim (Option-cases (split_3 (trim_space raw))) [
    | inl f ↦ rw (e, read_response, f) (λ q. cc)
    | inr ((protocol, (code, text)), f) ↦ elim (Bool-cases (has_prefix (codes "RTSP/") protocol)) [
      | inl g ↦ rw (e, read_response, f, g) (read_rest-terminates (atoi code).0 text rest)
      | inr g ↦ rw (e, read_response, f, g) (λ q. cc)
    ]
  ]
]
