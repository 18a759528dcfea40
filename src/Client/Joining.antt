-- ===== src/Client/Joining.antt =====
-- `concatenate` of packages/effect-tls-client/src/TlsClient.ts and of TlsHttpClient.ts, against the
-- joined chunks.
use mathlib.Core.List.{flatten}
use effect_tls_client.Prelude.{
  ℕ, zero, suc, ◌+◌, ◌≡◌, refl, sym, ap, some, true, List, [], ◌∷◌, ◌++◌, append_assoc, append-nil,
  length, drop, leb, arith, length-append, take-append, drop-drop, drop-append,
}
use effect_tls_client.Client.Bodies.{zeros, set_bytes, total_length, fill, concatenate}

length-zeros : (n : ℕ) → length (zeros n) ≡ n
length-zeros zero = refl
length-zeros (suc n) = ap suc (length-zeros n)

add-suc_left : (m n : ℕ) → suc m + n ≡ suc (m + n)
add-suc_left m n = omega arith

drop-zeros : (m n : ℕ) → drop m (zeros (m + n)) ≡ zeros n
drop-zeros zero n = ap zeros (omega arith)
drop-zeros (suc m) n = rw (add-suc_left m n) (drop-zeros m n)

set_bytes-next :
    (done chunk : List ℕ) (rest : ℕ)
    → set_bytes (done ++ zeros (length chunk + rest)) chunk (length done)
      ≡ some ((done ++ chunk) ++ zeros rest)
unfolding set_bytes
set_bytes-next done chunk rest =
    let fits : leb (length done + length chunk) (length (done ++ zeros (length chunk + rest)))
        ≡ true =
      ground (
        arith,
        length-append done (zeros (length chunk + rest)),
        length-zeros (length chunk + rest),
      ) in
    rw
      (
        fits,
        take-append done (zeros (length chunk + rest)),
        sym (drop-drop (length chunk) (length done) (done ++ zeros (length chunk + rest))),
        drop-append done (zeros (length chunk + rest)),
        drop-zeros (length chunk) rest,
        append_assoc done chunk (zeros rest),
      )
      refl

fill-flatten :
    (chunks : List (List ℕ)) (done : List ℕ)
    → fill chunks (length done) (done ++ zeros (total_length chunks))
      ≡ some (done ++ flatten chunks)
unfolding fill total_length flatten
fill-flatten [] done = refl
fill-flatten (chunk ∷ chunks) done =
    rw
      (
        set_bytes-next done chunk (total_length chunks),
        fill,
        sym (length-append done chunk),
        fill-flatten chunks (done ++ chunk),
        append_assoc done chunk (flatten chunks),
      )
      refl

-- `concatenate` never writes out of range, and returns the chunks, joined in their order.
pub concatenate-flatten : (chunks : List (List ℕ)) → concatenate chunks ≡ some (flatten chunks)
unfolding concatenate flatten
concatenate-flatten [] = fill-flatten [] []
concatenate-flatten (only ∷ []) = ap some (sym (append-nil only))
concatenate-flatten (a ∷ b ∷ chunks) = fill-flatten (a ∷ b ∷ chunks) []
