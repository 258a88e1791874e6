-- ===== src/Product/Service/Failure.antt =====
-- A reservation that fails half-way: the loop stops where the failing item stands.
use shop_microservices.Prelude.{ℕ, List, [], ◌∷◌, ◌++◌, ◌≡◌, refl, sym, ap, subst, inl, inr}
use shop_microservices.Shared.Messages.{StockItem}
use shop_microservices.Exec.{Result, ok, err, continue, pure}
use shop_microservices.Product.Entity.{ReservedItemResult, ProductError, Tables}
use shop_microservices.Product.Service.{reserve_item, reserve_each}
use shop_microservices.Product.Service.Stock.{reserve_item_step}

module _ {S A E : Type 0} where
  pushed_ok :
      (a : A) (bs : List A) (s : S) (out : Result E (List A) × S)
      → continue out.0 (λ cs. pure (a ∷ cs)) out.1 ≡ (ok bs, s)
      → (cs : List A) × (out ≡ (ok cs, s))
  pushed_ok a bs s (ok cs, s') h = (cs, ap (λ o. (ok cs, o.1)) h)
  pushed_ok a bs s (err e, s') h = cc h

module _ (T : Tables) (now : ℕ) where
  pub reserve_each_fails :
      (taken rest : List StockItem) (item : StockItem) (e : ProductError) (t t' : T.products.Table)
      (rs : List ReservedItemResult)
      → reserve_each T now taken t ≡ (ok rs, t')
      → reserve_item T now item t' ≡ (err e, t')
      → reserve_each T now (taken ++ (item ∷ rest)) t ≡ (err e, t')
  unfolding reserve_each
  reserve_each_fails [] rest item e t t' rs taking failing =
      subst (λ x. reserve_each T now (item ∷ rest) x ≡ (err e, t')) (sym (ap (λ o. o.1) taking))
        (rw failing refl)
  reserve_each_fails (i ∷ taken) rest item e t t' rs taking failing =
      elim (reserve_item_step T now i t) [
        | inl (r, t1, runs, quotes, takes, price, keeps) ↦
            let (rs', taking') = pushed_ok r rs t' (reserve_each T now taken t1) (
              subst
                (λ o.
                  continue o.0
                    (λ a. λ s.
                      continue (reserve_each T now taken s).0 (λ cs. pure (a ∷ cs))
                        (reserve_each T now taken s).1)
                    o.1
                  ≡ (ok rs, t'))
                runs taking) in
            rw (runs, reserve_each_fails taken rest item e t1 t' rs' taking' failing) refl
        | inr (e', fails) ↦ cc (
            subst
              (λ o.
                continue o.0
                  (λ a. λ s.
                    continue (reserve_each T now taken s).0 (λ cs. pure (a ∷ cs))
                      (reserve_each T now taken s).1)
                  o.1
                ≡ (ok rs, t'))
              fails taking)
      ]
