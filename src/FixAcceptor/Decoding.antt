-- ===== src/FixAcceptor/Decoding.antt =====
-- A message is decoded to a request exactly if it carries that request.
use openoms.Base.{
  ℕ, ◌≡◌, refl, sym, ◌∙◌, ap, ◌↔◌, inl, inr, Bool, true, not, String, str_eq, eq_iff, Option, none,
  some, Result, ok, ◌>>=◌, ok_or, unwrap_or, arith, Bool-cases, OnOk, OnOk-bind, OnOk-ok, OnOk-err,
  subst,
}
use openoms.Float.{Float64}
use openoms.FixAcceptor.{
  FixMessage, Texts, Side, OrdType, Tif, NewOrder, ClientRequest, new_order, cancel, status,
  security_list, Reject, filter, side_of, ord_type_of, tif_of, msg_type, required, number, price_of,
  decode_new_order, decode_cancel, decode_as, decode,
}

abbrev pub side_tag : Side → String
side_tag Side.buy = "1"
side_tag Side.sell = "2"

abbrev pub ord_type_tag : OrdType → String
ord_type_tag OrdType.market = "1"
ord_type_tag OrdType.limit = "2"

abbrev pub tif_tag : Tif → String
tif_tag Tif.day = "0"
tif_tag Tif.gtc = "1"
tif_tag Tif.ioc = "3"

module _ {M F : Type 0} ⦃fl : Float64 F⦄ (fix : FixMessage M) (texts : Texts F) where
  -- A field with a text that is not empty.
  abbrev pub Field : M → ℕ → String → Type 0
  Field m tag v = (fix.get_field m tag ≡ some v) × (not (str_eq v "") ≡ true)

  abbrev pub Number : M → ℕ → F → Type 0
  Number m tag x =
      (v : String) × Field m tag v × (texts.parse_f64 v ≡ some x) × (fl.is_finite x ≡ true)

  abbrev pub Price : M → OrdType → Option F → Type 0
  Price m OrdType.market price = price ≡ none
  Price m OrdType.limit price = (x : F) × Number m 44 x × (price ≡ some x)

  abbrev pub OrderFields : M → NewOrder F → Type 0
  OrderFields m o =
      ((side_text : String) × Field m 54 side_text × (side_text ≡ side_tag o.side))
      × ((type_text : String) × Field m 40 type_text × (type_text ≡ ord_type_tag o.ord_type))
      × (unwrap_or (fix.get_field m 59) "0" ≡ tif_tag o.tif)
      × Price m o.ord_type o.price
      × Field m 11 o.cl_ord_id
      × Field m 55 o.symbol
      × Field m 100 o.ex_destination
      × Number m 38 o.qty

  -- A message of a type spells the request.
  abbrev pub Carries : M → String → ClientRequest F → Type 0
  Carries m t (new_order o) = (t ≡ "D") × OrderFields m o
  Carries m t (cancel cl_ord_id orig_cl_ord_id) =
      (t ≡ "F") × Field m 11 cl_ord_id × Field m 41 orig_cl_ord_id
  Carries m t (status cl_ord_id) = (t ≡ "H") × Field m 11 cl_ord_id
  Carries m t (security_list req_id) = (t ≡ "x") × Field m 320 req_id

-- A step of a chain of `?` that succeeds.
bind-ok :
    {A B : Type 0} (r : Result A Reject) (f : A → Result B Reject) {a : A} {b : B}
    → r ≡ ok a
    → f a ≡ ok b
    → (r >>= f) ≡ ok b
bind-ok r f e h = ap (λ r. r >>= f) e ∙ h

filter-ok_back :
    {A : Type 0} (p : A → Bool) (o : Option A) (e : Reject) (a : A)
    → ok_or (filter p o) e ≡ ok a
    → (o ≡ some a) × (p a ≡ true)
filter-ok_back p none e a h = absurd (cc)
filter-ok_back p (some b) e a h = (ground (arith, h), ground (arith, h))

filter-ok_forth :
    {A : Type 0} (p : A → Bool) (o : Option A) (e : Reject) (a : A)
    → o ≡ some a
    → p a ≡ true
    → ok_or (filter p o) e ≡ ok a
filter-ok_forth p o e a h q = ap (λ o. ok_or (filter p o) e) h ∙ rw q refl

side_of-tag : (t v : String) (s : Side) → (side_of t v ≡ ok s) ↔ (v ≡ side_tag s)
unfolding side_of
side_of-tag t v Side.buy = (
  λ h. ground (arith, eq_iff v "1", eq_iff v "2", h),
  λ h. ground (arith, eq_iff v "1", eq_iff v "2", h),
)
side_of-tag t v Side.sell = (
  λ h. ground (arith, eq_iff v "1", eq_iff v "2", h),
  λ h. ground (arith, eq_iff v "1", eq_iff v "2", eq_iff "2" "1", h),
)

ord_type_of-tag : (t v : String) (s : OrdType) → (ord_type_of t v ≡ ok s) ↔ (v ≡ ord_type_tag s)
unfolding ord_type_of
ord_type_of-tag t v OrdType.market = (
  λ h. ground (arith, eq_iff v "1", eq_iff v "2", h),
  λ h. ground (arith, eq_iff v "1", eq_iff v "2", h),
)
ord_type_of-tag t v OrdType.limit = (
  λ h. ground (arith, eq_iff v "1", eq_iff v "2", h),
  λ h. ground (arith, eq_iff v "1", eq_iff v "2", eq_iff "2" "1", h),
)

tif_of-tag : (t v : String) (s : Tif) → (tif_of t v ≡ ok s) ↔ (v ≡ tif_tag s)
unfolding tif_of
tif_of-tag t v s = (back s, λ h. ap (tif_of t) h ∙ forth s)
  where
    back : (s : Tif) → tif_of t v ≡ ok s → v ≡ tif_tag s
    back Tif.day h = ground (arith, eq_iff v "0", eq_iff v "1", eq_iff v "3", h)
    back Tif.gtc h = ground (arith, eq_iff v "0", eq_iff v "1", eq_iff v "3", h)
    back Tif.ioc h = ground (arith, eq_iff v "0", eq_iff v "1", eq_iff v "3", h)

    forth : (s : Tif) → tif_of t (tif_tag s) ≡ ok s
    forth Tif.day = refl
    forth Tif.gtc = refl
    forth Tif.ioc = refl

module _ {M F : Type 0} (fix : FixMessage M) (texts : Texts F) where
  required-Field :
      (m : M) (tag : ℕ) (t v : String)
      → required fix texts m tag t ≡ ok v
      → (fix.get_field m tag ≡ some v) × (not (str_eq v "") ≡ true)
  unfolding required
  required-Field m tag t v h = filter-ok_back (λ v. not (str_eq v "")) (fix.get_field m tag) _ v h

  Field-required :
      (m : M) (tag : ℕ) (t v : String)
      → (fix.get_field m tag ≡ some v) × (not (str_eq v "") ≡ true)
      → required fix texts m tag t ≡ ok v
  unfolding required
  Field-required m tag t v h =
      filter-ok_forth (λ v. not (str_eq v "")) (fix.get_field m tag) _ v h.0 h.1

module _ {M F : Type 0} ⦃fl : Float64 F⦄ (fix : FixMessage M) (texts : Texts F) where
  number-Number :
      (m : M) (tag : ℕ) (t : String) → OnOk (Number fix texts m tag) (number fix texts m tag t)
  unfolding number
  number-Number m tag t = OnOk-bind (required fix texts m tag t) _ λ v field. record {
    at = λ x parsed. (
      v,
      required-Field fix texts m tag t v field,
      (filter-ok_back fl.is_finite (texts.parse_f64 v) _ x parsed).0,
      (filter-ok_back fl.is_finite (texts.parse_f64 v) _ x parsed).1,
    );
  }

  Number-number :
      (m : M) (tag : ℕ) (t : String) (x : F)
      → Number fix texts m tag x
      → number fix texts m tag t ≡ ok x
  unfolding number
  Number-number m tag t x (v, field, parsed, finite) =
      bind-ok (required fix texts m tag t) _ (Field-required fix texts m tag t v field)
        (filter-ok_forth fl.is_finite (texts.parse_f64 v) _ x parsed finite)

  price_of-Price :
      (m : M) (t : String) (ord_type : OrdType)
      → OnOk (Price fix texts m ord_type) (price_of fix texts m t ord_type)
  unfolding price_of
  price_of-Price m t OrdType.market = OnOk-ok none refl
  price_of-Price m t OrdType.limit =
      OnOk-bind (number fix texts m 44 t) _
        λ x h. OnOk-ok (some x) (x, (number-Number m 44 t).at x h, refl)

  Price-price_of :
      (m : M) (t : String) (ord_type : OrdType) (price : Option F)
      → Price fix texts m ord_type price
      → price_of fix texts m t ord_type ≡ ok price
  unfolding price_of
  Price-price_of m t OrdType.market price h = ap ok (sym h)
  Price-price_of m t OrdType.limit price (x, number_at, h) =
      bind-ok (number fix texts m 44 t) _ (Number-number m 44 t x number_at) (ap ok (sym h))

  abbrev SomeOrder : M → ClientRequest F → Type 0
  SomeOrder m r = (o : NewOrder F) × (r ≡ new_order o) × OrderFields fix texts m o

  decode_new_order-fields :
      (m : M) (t : String) → OnOk (SomeOrder m) (decode_new_order fix texts m t)
  unfolding decode_new_order
  decode_new_order-fields m t = OnOk-bind (required fix texts m 54 t) _ λ side_text side_at.
      OnOk-bind (side_of t side_text) _ λ side side_is.
        OnOk-bind (required fix texts m 40 t) _ λ type_text type_at.
          OnOk-bind (ord_type_of t type_text) _ λ ord_type type_is.
            OnOk-bind (tif_of t (unwrap_or (fix.get_field m 59) "0")) _ λ tif tif_is.
              OnOk-bind (price_of fix texts m t ord_type) _ λ price price_at.
                OnOk-bind (required fix texts m 11 t) _ λ cl_ord_id cl_at.
                  OnOk-bind (required fix texts m 55 t) _ λ symbol symbol_at.
                    OnOk-bind (required fix texts m 100 t) _ λ ex_destination ex_at.
                      OnOk-bind (number fix texts m 38 t) _ λ qty qty_at. OnOk-ok _ (
                        _,
                        refl,
                        (
                          (
                            side_text,
                            required-Field fix texts m 54 t side_text side_at,
                            (side_of-tag t side_text side).0 side_is,
                          ),
                          (
                            type_text,
                            required-Field fix texts m 40 t type_text type_at,
                            (ord_type_of-tag t type_text ord_type).0 type_is,
                          ),
                          (tif_of-tag t _ tif).0 tif_is,
                          (price_of-Price m t ord_type).at price price_at,
                          required-Field fix texts m 11 t cl_ord_id cl_at,
                          required-Field fix texts m 55 t symbol symbol_at,
                          required-Field fix texts m 100 t ex_destination ex_at,
                          (number-Number m 38 t).at qty qty_at,
                        ),
                      )

  fields-decode_new_order :
      (m : M) (t : String) (o : NewOrder F)
      → OrderFields fix texts m o
      → decode_new_order fix texts m t ≡ ok (new_order o)
  unfolding decode_new_order
  fields-decode_new_order m t o
        (
          (side_text, side_at, side_is),
          (type_text, type_at, type_is),
          tif_is,
          price_at,
          cl_at,
          symbol_at,
          ex_at,
          qty_at,
        ) =
      bind-ok _ _ (Field-required fix texts m 54 t side_text side_at) (
        bind-ok _ _ ((side_of-tag t side_text o.side).1 side_is) (
          bind-ok _ _ (Field-required fix texts m 40 t type_text type_at) (
            bind-ok _ _ ((ord_type_of-tag t type_text o.ord_type).1 type_is) (
              bind-ok _ _ ((tif_of-tag t _ o.tif).1 tif_is) (
                bind-ok _ _ (Price-price_of m t o.ord_type o.price price_at) (
                  bind-ok _ _ (Field-required fix texts m 11 t o.cl_ord_id cl_at) (
                    bind-ok _ _ (Field-required fix texts m 55 t o.symbol symbol_at) (
                      bind-ok _ _ (Field-required fix texts m 100 t o.ex_destination ex_at)
                        (bind-ok _ _ (Number-number m 38 t o.qty qty_at) refl)))))))))

  order-Carries :
      (m : M) (t : String) (r : ClientRequest F) → t ≡ "D" → SomeOrder m r → Carries fix texts m t r
  order-Carries m t r h (o, is, fields) = subst (Carries fix texts m t) (sym is) (h, fields)

  decode_as-Carries : (m : M) (t : String) → OnOk (Carries fix texts m t) (decode_as fix texts m t)
  unfolding decode_as decode_cancel
  decode_as-Carries m t = elim (Bool-cases (str_eq t "D")) [
    | inl e ↦
        rw (e, decode_as)
          (record {
            at = λ r h.
                order-Carries m t r ((eq_iff t "D").0 e) ((decode_new_order-fields m t).at r h);
          })
    | inr d ↦ elim (Bool-cases (str_eq t "F")) [
      | inl e ↦
          rw (d, e, decode_as)
            (OnOk-bind (required fix texts m 11 t) _ λ v at.
              OnOk-bind (required fix texts m 41 t) _ λ w orig. OnOk-ok (cancel v w) (
                (eq_iff t "F").0 e,
                required-Field fix texts m 11 t v at,
                required-Field fix texts m 41 t w orig,
              ))
      | inr f ↦ elim (Bool-cases (str_eq t "H")) [
        | inl e ↦
            rw (d, f, e, decode_as)
              (OnOk-bind (required fix texts m 11 t) _ λ v at.
                OnOk-ok (status v) ((eq_iff t "H").0 e, required-Field fix texts m 11 t v at))
        | inr g ↦ elim (Bool-cases (str_eq t "x")) [
          | inl e ↦
              rw (d, f, g, e, decode_as)
                (OnOk-bind (required fix texts m 320 t) _ λ v at.
                  OnOk-ok (security_list v)
                    ((eq_iff t "x").0 e, required-Field fix texts m 320 t v at))
          | inr k ↦ rw (d, f, g, k, decode_as) (OnOk-err _)
        ]
      ]
    ]
  ]

  Carries-decode_as :
      (m : M) (t : String) (r : ClientRequest F)
      → Carries fix texts m t r
      → decode_as fix texts m t ≡ ok r
  unfolding decode_as decode_cancel
  Carries-decode_as m t (new_order o) (h, fields) =
      ap (decode_as fix texts m) h ∙ fields-decode_new_order m "D" o fields
  Carries-decode_as m t (cancel v w) (h, at, orig) =
      ap (decode_as fix texts m) h
      ∙ bind-ok _ _ (Field-required fix texts m 11 "F" v at)
          (bind-ok _ _ (Field-required fix texts m 41 "F" w orig) refl)
  Carries-decode_as m t (status v) (h, at) =
      ap (decode_as fix texts m) h ∙ bind-ok _ _ (Field-required fix texts m 11 "H" v at) refl
  Carries-decode_as m t (security_list v) (h, at) =
      ap (decode_as fix texts m) h ∙ bind-ok _ _ (Field-required fix texts m 320 "x" v at) refl

  -- A message of a strategy is decoded to a request exactly if it carries the request: its type and
  -- each field that the request needs is the request's, by the codes of FIX 4.4; texts are not empty,
  -- numbers are finite, a limit order has a price and a market order none, and a time in force that
  -- is left out is day.
  pub decode-Carries :
      (m : M) (r : ClientRequest F)
      → (decode fix texts m ≡ ok r) ↔ Carries fix texts m (msg_type fix m) r
  unfolding decode
  decode-Carries m r =
      (λ h. (decode_as-Carries m (msg_type fix m)).at r h, Carries-decode_as m (msg_type fix m) r)
