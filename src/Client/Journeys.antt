-- ===== src/Client/Journeys.antt =====
-- Calls of the client library one after the other, against the HTTP API and the manager behind it.
use kotakpasir.Base.{
  ◌≡◌, ◌≢◌, ◌⊎◌, inl, inr, refl, sym, ap, subst, ◌∙◌, true, false, none, some, String, nat_eq,
  string_eq, string_dec, Error, sentinel, ==_refl, err, is_error, arith, Bool-cases, if◌then◌else◌,
}
use kotakpasir.Base.Text.{Chars}
use kotakpasir.Runtime.{Runtime}
use kotakpasir.Sandbox.{Sandbox, Store, running, not_found as missing}
use kotakpasir.Sandbox.Contract.{Contract}
use kotakpasir.Manager.{Manager}
use kotakpasir.Manager.Create
use kotakpasir.Manager.Create.Outcome.{create-IsStored, create-IsConfined}
use kotakpasir.Manager.Lifecycle
use kotakpasir.Manager.Lifecycle.Outcome.{delete-Deletes}
use kotakpasir.Api.{Codec, View, to_api}
use kotakpasir.Api.Handlers.{options_of, lookup_error, fail_with}
use kotakpasir.Api.Server.{Settings, Moment}
use kotakpasir.Client.{
  Decoder, Answer, fine, failed, refused, not_found, CreateOptions, request_of, read_error_response,
  classify_error,
}
use kotakpasir.Client.Methods.{create, get, delete}
use kotakpasir.Client.Wire.{IsWire, CreateArrives, wired}
use kotakpasir.Client.Sandboxes.{looked_up, get_served, delete_served, create_served}

same_view :
    (a b : Sandbox)
    → a.id ≡ b.id
    → a.name ≡ b.name
    → a.image ≡ b.image
    → a.state ≡ b.state
    → to_api a ≡ to_api b
same_view a b id name image state =
    λ i. record { id = id i; name = name i; image = image i; state = state i }

module _ (K : Codec) (chars : Chars) (D : Decoder K.Body) (wire : IsWire K D) where
  -- The 404 of the server is the client's `ErrNotFound`.
  gone :
      (e : Error)
      → is_error e missing ≡ true
      → read_error_response chars D (lookup_error K e) ≡ refused 404 "not found" (some not_found)
  unfolding read_error_response classify_error nat_eq string_eq string_dec
  gone e h =
      ap (read_error_response chars D)
        (ap (λ b. if b then fail_with K 404 "not found" else fail_with K 500 (K.text e)) h)
      ∙ rw (wire.error_law "not found") refl

  module _ {R : Runtime} {S : Store} (C : Contract S) (s : Settings K.Body) (token : String)
      (same : (s.token ≡ "") ⊎ (s.token ≡ token)) where
    -- The lookup in a database that holds the sandbox, and in one that does not.
    get_held :
        (at : Moment) (id : String) (sb : Sandbox) (v : View) (n : Manager R S)
        → C.IsGood n.db
        → id ≢ ""
        → C.contents n.db id ≡ some sb
        → v ≡ to_api sb
        → ((e : Error)
            → (S.get id n.db).0 ≡ err e
            → is_error e missing ≡ true
            → C.contents n.db id ≡ none)
        → ((get chars D token (wired K s at) id n).0 ≡ fine v)
          ⊎ ((e : Error) × ((S.get id n.db).0 ≡ err e) × (is_error e missing ≡ false))
    unfolding Lifecycle.get
    get_held at id sb v n good filled held seen honest =
        let served =
          ap (λ (r : Answer View × Manager R S). r.0)
            (get_served K chars D wire s token same at id n filled) in
        elim (C.get_law id id n.db good).2 [
          | inl (sb', e, held') ↦ inl (served ∙ ground (arith, e, held, held', seen))
          | inr (inl (e, empty)) ↦ cc (held, empty)
          | inr (inr (e, h)) ↦ elim (Bool-cases (is_error e missing)) [
            | inl lost ↦ cc (held, honest e h lost)
            | inr other ↦ inr (e, h, other)
          ]
        ]

    get_gone :
        (at : Moment) (id : String) (n : Manager R S)
        → C.IsGood n.db
        → id ≢ ""
        → C.contents n.db id ≡ none
        → ((get chars D token (wired K s at) id n).0
            ≡ failed (refused 404 "not found" (some not_found)))
          ⊎ ((e : Error) × ((S.get id n.db).0 ≡ err e) × (is_error e missing ≡ false))
    unfolding Lifecycle.get is_error
    get_gone at id n good filled empty =
        let served =
          ap (λ (r : Answer View × Manager R S). r.0)
            (get_served K chars D wire s token same at id n filled) in
        let told : (e : Error)
            → (S.get id n.db).0 ≡ err e
            → (get chars D token (wired K s at) id n).0
              ≡ failed (read_error_response chars D (lookup_error K e)) =
          λ e h. served ∙ ap (looked_up K chars D to_api) h in
        elim (C.get_law id id n.db good).2 [
          | inl (sb, e, held) ↦ cc (held, empty)
          | inr (inl (e, _)) ↦
              inl
                (told (sentinel missing) e ∙ ap failed (gone (sentinel missing) (==_refl missing)))
          | inr (inr (e, h)) ↦ elim (Bool-cases (is_error e missing)) [
            | inl lost ↦ inl (told e h ∙ ap failed (gone e lost))
            | inr other ↦ inr (e, h, other)
          ]
        ]

    -- After a creation that the client sees succeed, the sandbox it got has the new id and runs, and
    -- getting it by its id gives the same, or else the store's lookup failed with an error that is not
    -- `ErrNotFound`. The request comes through the JSON libraries as it was, and the store then tells
    -- `ErrNotFound` of the new id only where it does not hold it.
    pub create-get :
        (at later : Moment) (opts : CreateOptions) (m : Manager R S) (v : View)
        → C.IsGood m.db
        → at.new_id ≢ ""
        → CreateArrives K D (request_of opts)
        → (create chars D token (wired K s at) opts m).0 ≡ fine v
        → ((e : Error)
            → (S.get v.id (create chars D token (wired K s at) opts m).1.db).0 ≡ err e
            → is_error e missing ≡ true
            → C.contents (create chars D token (wired K s at) opts m).1.db v.id ≡ none)
        → let n = (create chars D token (wired K s at) opts m).1 in
          (v.id ≡ at.new_id)
          × (v.state ≡ running)
          × (((get chars D token (wired K s later) v.id n).0 ≡ fine v)
              ⊎ ((e : Error) × ((S.get v.id n.db).0 ≡ err e) × (is_error e missing ≡ false)))
    unfolding Create.new_sandbox
    create-get at later opts m v good filled law h honest =
        let (sb, made, is_view, after) =
          create_served K chars D wire s token same at opts m v law h in
        let (r, resolved, made_for, _, stored) =
          create-IsStored C (options_of (request_of opts)) at.new_id at.now m sb good made in
        let n' = (Create.create (options_of (request_of opts)) at.new_id at.now m).1 in
        let confined = create-IsConfined C (options_of (request_of opts)) at.new_id at.now m good in
        let old = C.contents m.db sb.id in
        let kept = C.kept sb old in
        let same_id : v.id ≡ sb.id = ap (λ (w : View). w.id) is_view in
        let is_new : v.id ≡ at.new_id = same_id ∙ made_for.id in
        (
          is_new,
          ap (λ (w : View). w.state) is_view ∙ stored.state,
          get_held later v.id kept v (create chars D token (wired K s at) opts m).1
              (subst (λ (x : Manager R S). C.IsGood x.db) (sym after) confined.good)
              (λ blank. filled (sym is_new ∙ blank))
              (ap (λ (x : Manager R S). C.contents x.db v.id) after
                ∙ ap (C.contents n'.db) same_id
                ∙ stored.stored)
              (is_view
                ∙ same_view sb kept (sym (C.kept_id sb old)) (sym (C.kept_name sb old))
                    (sym (C.kept_image sb old)) (sym (C.kept_state sb old)))
              honest,
        )

    -- After a deletion that the client sees succeed, getting the sandbox fails with status 404 and
    -- the kind `ErrNotFound`, or else the store's lookup failed with another error.
    pub delete-get :
        (at later : Moment) (id : String) (m : Manager R S)
        → C.IsGood m.db
        → id ≢ ""
        → (delete chars D token (wired K s at) id m).0 ≡ fine tt
        → let n = (delete chars D token (wired K s at) id m).1 in
          ((get chars D token (wired K s later) id n).0
            ≡ failed (refused 404 "not found" (some not_found)))
          ⊎ ((e : Error) × ((S.get id n.db).0 ≡ err e) × (is_error e missing ≡ false))
    delete-get at later id m good filled h =
        let served = delete_served K chars D wire s token same at id m filled in
        let n = (Lifecycle.delete id m).1 in
        let (good', what) = delete-Deletes C id id m good in
        let after = ap (λ (r : Answer (Unit {0}) × Manager R S). r.1) served in
        get_gone later id (delete chars D token (wired K s at) id m).1
          (subst (λ (x : Manager R S). C.IsGood x.db) (sym after) good') filled
          (ap (λ (x : Manager R S). C.contents x.db id) after
            ∙ ground (arith, h, served, what, ==_refl id))
