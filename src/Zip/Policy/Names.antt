-- ===== src/Zip/Policy/Names.antt =====
-- The file names of v1 signature files, in either case.
use fastsigner.Base.{◌≡◌, refl, Bytes, [], ◌∷◌, ◌++◌, map, arith, contains, codes, strip_prefix}
use fastsigner.Zip.Policy.{to_ascii_lowercase, is_v1_signature_file, is_v1_signature_entry}

contains-lower :
    (r s : Bytes)
    → map to_ascii_lowercase r ≡ map to_ascii_lowercase s
    → contains r b'/' ≡ contains s b'/'
unfolding contains to_ascii_lowercase
contains-lower [] [] e = refl
contains-lower [] (d ∷ s) e = cc
contains-lower (c ∷ r) [] e = cc
contains-lower (c ∷ r) (d ∷ s) e = ground (arith, contains-lower r s)

-- Whether a file directly under "META-INF/" counts as a v1 signature file does not depend on the
-- case of the letters in its name.
pub is_v1_signature_entry_case :
    (r s : Bytes)
    → map to_ascii_lowercase r ≡ map to_ascii_lowercase s
    → is_v1_signature_entry (codes "META-INF/" ++ r)
      ≡ is_v1_signature_entry (codes "META-INF/" ++ s)
unfolding is_v1_signature_entry is_v1_signature_file strip_prefix
is_v1_signature_entry_case r s e = rw (contains-lower r s e, e)
