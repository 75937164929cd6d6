-- ===== src/Jks/EntryLoop.antt =====
-- The loop over the entries of a Java keystore reads what the grammar of entries says.
use fastsigner.Base.{
  ℕ, zero, suc, ◌+◌, ◌≡◌, refl, sym, ap, subst, ◌∙◌, ◌⊎◌, inl, inr, none, List, [], ◌∷◌, ◌++◌,
  Bytes, drop, Ensures, arith, codes, ◌==◌,
}
use fastsigner.Base.{Ensures-map, >>=-Ensures, if-Ensures, ==_iff, append_assoc, append-nil}
use fastsigner.Jks.{
  Jks, KeyEntry, Cursor, cursor_take, cursor_u32, cursor_u64, cursor_utf, chain_type, chain_loop,
  key_entry, cert_type, cert_entry, store_entry, entry_loop,
}
use fastsigner.Jks.Entries.{
  Num, Str, Typed, Chain, no_certs, next_cert, Head, KeyOf, CertOf, Entries, no_entries, key_next,
  cert_next, In, Reads, Texts, Types, cursor_u32-Reads, cursor_u64-Reads, cursor_utf-Texts, sized,
  chain_type-Types, not_two,
}

module _ (bytes : Bytes) (version : ℕ) where
  abbrev Chained : ℕ → List Bytes → Cursor → List Bytes × Cursor → Type 0
  Chained n chain c (all, c') =
      In bytes c'
      × ((certs : List Bytes) × Chain version n (drop c.p bytes) (drop c'.p bytes) certs
          × (all ≡ chain ++ certs))

  chain_loop-Chained :
      (n : ℕ) (c : Cursor) (chain : List Bytes)
      → In bytes c
      → Ensures (Chained n chain c) (chain_loop version n c chain)
  unfolding chain_loop
  chain_loop-Chained zero c chain is = (is, ([], no_certs, sym (append-nil chain)))
  chain_loop-Chained (suc n) c chain is =
      let P : List Bytes × Cursor → Type 0 = Chained (suc n) chain c in
      >>=-Ensures (Types bytes version (codes "X.509") c) P (chain_type version c) _
        (chain_type-Types bytes version c is)
        (λ c1 e1 (is1, typed).
          >>=-Ensures (Reads bytes 4 c1) P (cursor_u32 c1) _ (cursor_u32-Reads bytes c1 is1)
            (λ r2 e2 (is2, num).
              >>=-Ensures (Texts bytes 4 c1) P (cursor_take r2.1 r2.0) _
                (sized bytes r2.0 c1 r2.1 num is2)
                (λ r3 e3 (is3, cert).
                  Ensures-map (chain_loop version n r3.1 (chain ++ r3.0 ∷ []))
                    (λ r4 (is4, (certs, more, all)). (
                      is4,
                      (
                        r3.0 ∷ certs,
                        next_cert r3.0 typed cert more,
                        all ∙ append_assoc chain (r3.0 ∷ []) certs,
                      ),
                    ))
                    (chain_loop-Chained n r3.1 (chain ++ r3.0 ∷ []) is3))))

  abbrev AnyType : Cursor → Cursor → Type 0
  AnyType c c' = In bytes c' × ((t : Bytes) × Typed version t (drop c.p bytes) (drop c'.p bytes))

  cert_type-AnyType : (c : Cursor) → In bytes c → Ensures (AnyType c) (cert_type version c)
  unfolding cert_type
  cert_type-AnyType c is =
      if-Ensures (AnyType c) (version == 2) _ _
        (λ two.
          >>=-Ensures (Texts bytes 2 c) (AnyType c) (cursor_utf c) _ (cursor_utf-Texts bytes c is)
            (λ r e (is', text). (is', (r.0, inl ((==_iff version 2).0 two, text)))))
        (λ other. (is, ([], inr (not_two version other, refl))))

  -- What an entry adds to the store, with its head in front.
  abbrev NewKey : Jks → Bytes → Bytes → Cursor → Jks × Cursor → Type 0
  NewKey store alias s c (store', c') =
      In bytes c'
      × ((k : KeyEntry) × (k.alias ≡ alias)
          × KeyOf version k (drop c.p bytes) (drop c'.p bytes)
          × (store'.keys ≡ store.keys ++ k ∷ [])
          × (store'.trusted_certs ≡ store.trusted_certs))

  key_entry-NewKey :
      (alias s : Bytes) (c : Cursor) (store : Jks)
      → In bytes c
      → Ensures (NewKey store alias s c) (key_entry version alias c store)
  unfolding key_entry
  key_entry-NewKey alias s c store is =
      let P : Jks × Cursor → Type 0 = NewKey store alias s c in
      >>=-Ensures (Reads bytes 4 c) P (cursor_u32 c) _ (cursor_u32-Reads bytes c is)
        (λ r1 e1 (is1, num).
          >>=-Ensures (Texts bytes 4 c) P (cursor_take r1.1 r1.0) _
            (sized bytes r1.0 c r1.1 num is1)
            (λ r2 e2 (is2, key).
              >>=-Ensures (Reads bytes 4 r2.1) P (cursor_u32 r2.1) _
                (cursor_u32-Reads bytes r2.1 is2)
                (λ r3 e3 (is3, count).
                  >>=-Ensures (Chained r3.0 [] r3.1) P (chain_loop version r3.0 r3.1 []) _
                    (chain_loop-Chained r3.0 r3.1 [] is3)
                    (λ r4 e4 (is4, (certs, chain, all)). (
                      is4,
                      (
                        record {
                          alias = alias;
                          protected_key = r2.0;
                          chain = r4.0;
                          recovered = none;
                        },
                        refl,
                        (
                          drop (r2.1).p bytes,
                          drop (r3.1).p bytes,
                          r3.0,
                          key,
                          count,
                          subst (Chain version r3.0 (drop (r3.1).p bytes) (drop (r4.1).p bytes))
                              (sym all) chain,
                          refl,
                        ),
                        refl,
                        refl,
                      ),
                    )))))

  abbrev NewCert : Jks → Cursor → Jks × Cursor → Type 0
  NewCert store c (store', c') =
      In bytes c'
      × CertOf version (drop c.p bytes) (drop c'.p bytes)
      × (store'.keys ≡ store.keys)
      × (store'.trusted_certs ≡ store.trusted_certs + 1)

  cert_entry-NewCert :
      (c : Cursor) (store : Jks)
      → In bytes c
      → Ensures (NewCert store c) (cert_entry version c store)
  unfolding cert_entry
  cert_entry-NewCert c store is =
      let P : Jks × Cursor → Type 0 = NewCert store c in
      >>=-Ensures (AnyType c) P (cert_type version c) _ (cert_type-AnyType c is)
        (λ c1 e1 (is1, (t, typed)).
          >>=-Ensures (Reads bytes 4 c1) P (cursor_u32 c1) _ (cursor_u32-Reads bytes c1 is1)
            (λ r2 e2 (is2, num).
              >>=-Ensures (Texts bytes 4 c1) P (cursor_take r2.1 r2.0) _
                (sized bytes r2.0 c1 r2.1 num is2)
                (λ r3 e3 (is3, cert). (is3, (drop c1.p bytes, t, r3.0, typed, cert), refl, refl))))

  abbrev Added : Jks → Bytes → Jks × Cursor → Type 0
  Added store s (store', c') =
      In bytes c'
      × (((k : KeyEntry) × (s1 : Bytes) × Head 1 k.alias s s1
            × KeyOf version k s1 (drop c'.p bytes)
            × (store'.keys ≡ store.keys ++ k ∷ [])
            × (store'.trusted_certs ≡ store.trusted_certs))
          ⊎ ((alias : Bytes) × (s1 : Bytes) × Head 2 alias s s1
              × CertOf version s1 (drop c'.p bytes)
              × (store'.keys ≡ store.keys)
              × (store'.trusted_certs ≡ store.trusted_certs + 1)))

  store_entry-Added :
      (c : Cursor) (store : Jks)
      → In bytes c
      → Ensures (Added store (drop c.p bytes)) (store_entry version c store)
  unfolding store_entry
  store_entry-Added c store is =
      let s = drop c.p bytes in
      let P : Jks × Cursor → Type 0 = Added store s in
      >>=-Ensures (Reads bytes 4 c) P (cursor_u32 c) _ (cursor_u32-Reads bytes c is)
        (λ r1 e1 (is1, tag).
          >>=-Ensures (Texts bytes 2 r1.1) P (cursor_utf r1.1) _ (cursor_utf-Texts bytes r1.1 is1)
            (λ r2 e2 (is2, alias).
              >>=-Ensures (Reads bytes 8 r2.1) P (cursor_u64 r2.1) _
                (cursor_u64-Reads bytes r2.1 is2)
                (λ r3 e3 (is3, date).
                  let s1 = drop (r1.1).p bytes in
                  let s3 = drop (r3.1).p bytes in
                  if-Ensures P (r1.0 == 1) _ _
                    (λ key.
                      let tagged = subst (λ n. Num 4 n s s1) ((==_iff r1.0 1).0 key) tag in
                      Ensures-map (key_entry version r2.0 r3.1 store)
                        (λ r4 (is4, (k, named, body, keys, trusted)). (
                          is4,
                          inl (
                            k,
                            s3,
                            (
                              s1,
                              drop (r2.1).p bytes,
                              r3.0,
                              tagged,
                              subst (λ a. Str 2 a s1 (drop (r2.1).p bytes)) (sym named) alias,
                              date,
                            ),
                            body,
                            keys,
                            trusted,
                          ),
                        ))
                        (key_entry-NewKey r2.0 s r3.1 store is3))
                    (λ other.
                      if-Ensures P (r1.0 == 2) _ _
                        (λ cert.
                          let tagged = subst (λ n. Num 4 n s s1) ((==_iff r1.0 2).0 cert) tag in
                          Ensures-map (cert_entry version r3.1 store)
                            (λ r4 (is4, body, keys, trusted). (
                              is4,
                              inr (
                                r2.0,
                                s3,
                                (s1, drop (r2.1).p bytes, r3.0, tagged, alias, date),
                                body,
                                keys,
                                trusted,
                              ),
                            ))
                            (cert_entry-NewCert r3.1 store is3))
                        (λ unknown. tt)))))

  abbrev pub AllRead : ℕ → Jks → Bytes → Jks × Cursor → Type 0
  AllRead n store s (store', c') =
      In bytes c'
      × ((keys : List KeyEntry) × (trusted : ℕ) × Entries version n s (drop c'.p bytes) keys trusted
          × (store'.keys ≡ store.keys ++ keys)
          × (store'.trusted_certs ≡ store.trusted_certs + trusted))

  pub entry_loop-AllRead :
      (n : ℕ) (c : Cursor) (store : Jks)
      → In bytes c
      → Ensures (AllRead n store (drop c.p bytes)) (entry_loop version n c store)
  unfolding entry_loop
  entry_loop-AllRead zero c store is =
      (is, ([], 0, no_entries, sym (append-nil store.keys), omega arith))
  entry_loop-AllRead (suc n) c store is =
      let s = drop c.p bytes in
      let P : Jks × Cursor → Type 0 = AllRead (suc n) store s in
      >>=-Ensures (Added store s) P (store_entry version c store) _ (store_entry-Added c store is)
        (λ r e (is1, added).
          Ensures-map (entry_loop version n r.1 r.0)
            (λ r' (is2, (keys, trusted, more, all, count)). elim added [
              | inl (k, s1, head, body, k_is, t_is) ↦ (
                is2,
                (
                  k ∷ keys,
                  trusted,
                  key_next k head body more,
                  all ∙ ap (λ l. l ++ keys) k_is ∙ append_assoc store.keys (k ∷ []) keys,
                  omega (arith, count, t_is),
                ),
              )
              | inr (alias, s1, head, body, k_is, t_is) ↦ (
                is2,
                (
                  keys,
                  trusted + 1,
                  cert_next alias head body more,
                  all ∙ ap (λ l. l ++ keys) k_is,
                  omega (arith, count, t_is),
                ),
              )
            ])
            (entry_loop-AllRead n r.1 r.0 is1))
