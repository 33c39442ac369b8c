-- ===== src/Ssm/Provider/Laws.antt =====
-- What the operations do to the parameters, one by one.
pub mod Tenants
use openstack.Prelude.{
  ℕ, ◌+◌, ◌/◌, ◌%◌, ◌^◌, String, ◌++◌, ◌≡◌, ◌≢◌, refl, sym, ap, ◌∙◌, Bool, true, false, not, ◌&&◌,
  any, Option, none, some, List, [], ◌∷◌, Dict, get as map_get, insert, remove, get-insert,
  get-remove, contains_key, unwrap_or, is_some, ◌==◌, eq_iff, eq_refl, if◌then◌else◌, inl, inr, ◌⊎◌,
  Option-cases, Bool-cases, arith,
}
use openstack.Framework.Json.{Json, num, str, object}
use openstack.Framework.Traits.{RequestContext, DispatchResponse, json}
use openstack.State.Bundle.{get, get_or_create, write, get-write_self, get_or_create-get}
use openstack.Ssm.Store
use openstack.Ssm.Store.{Parameter, SsmStore, empty}
use openstack.Ssm.Requests.{
  Stores, Answer, json_ok, str_param, flag_param, names_param, texts, param_to_json, signed,
}
use openstack.Ssm.Provider.{
  put_parameter_of, put, put_parameter, get_parameter, not_found, delete_parameter, delete_all,
  delete_parameters,
}

-- The store of a tenant; one that was never made is empty.
abbrev pub store_of : Stores → String → String → SsmStore
store_of stores account region = unwrap_or (get stores account region) empty

-- The parameter that a tenant has under a name.
abbrev pub find : Stores → String → String → String → Option Parameter
find stores account region name = map_get name (store_of stores account region).parameters

store_of-write :
    (stores : Stores) (a r : String) (s : SsmStore) → store_of (write stores a r s) a r ≡ s
store_of-write stores a r s = rw (get-write_self stores a r s) refl

-- What `get_or_create` gives is the tenant's store, and stays it.
opened :
    (stores : Stores) (a r : String)
    → ((get_or_create empty stores a r).1 ≡ store_of stores a r)
      × (store_of (get_or_create empty stores a r).0 a r ≡ store_of stores a r)
opened stores a r = let e = get_or_create-get empty stores a r in (e.0, rw e.1 e.0)

-- A put is accepted for a new name, or with `Overwrite`.
abbrev pub accepted : RequestContext → Option Parameter → Bool
accepted ctx old = not (is_some old && not (flag_param ctx "Overwrite"))

put-find :
    (now : ℕ) (ctx : RequestContext) (name value other : String) (created : Stores)
    (store found : SsmStore)
    → store ≡ found
    → store_of created ctx.account_id ctx.region ≡ found
    → find (put now ctx name value created store).0 ctx.account_id ctx.region other ≡ (
        if accepted ctx (map_get name found.parameters) && (name == other)
        then some (put_parameter_of now ctx name value (map_get name found.parameters))
        else map_get other found.parameters)
unfolding put
put-find now ctx name value other created store found e o =
    elim (Bool-cases (contains_key name found.parameters && not (flag_param ctx "Overwrite"))) [
      | inl refused ↦ rw (e, refused, put, o)
      | inr taken ↦
          rw (e, taken, put, store_of-write)
            (get-insert name other
              (put_parameter_of now ctx name value (map_get name found.parameters))
              found.parameters)
    ]

-- The version of a parameter that is put over another one, or over none.
abbrev pub next_version : Option Parameter → ℕ
next_version none = 1
next_version (some old) = (old.version + 1) % 2 ^ 64

-- PutParameter with a name and a value: where it is accepted the tenant has under the name a parameter
-- with this name and value, with the type and the description of the request or their defaults, with
-- 1 as its version or one past the old parameter's modulo 2 ^ 64, with the time of the put, and with
-- the ARN of the tenant and the name; any other name finds what it found before, and where the put
-- is refused every name does.
pub put_parameter-find :
    (now : ℕ) (ctx : RequestContext) (stores : Stores) (name value other : String)
    → str_param ctx "Name" ≡ some name
    → str_param ctx "Value" ≡ some value
    → find (put_parameter now ctx stores).0 ctx.account_id ctx.region other ≡ (
        if accepted ctx (find stores ctx.account_id ctx.region name) && (name == other)
        then some (record {
          name = name;
          type_ = Store.from_str (unwrap_or (str_param ctx "Type") "String");
          value = value;
          description = unwrap_or (str_param ctx "Description") "";
          version = next_version (find stores ctx.account_id ctx.region name);
          last_modified = now;
          arn =
              "arn:aws:ssm:" ++ (ctx.region ++ (":" ++ (ctx.account_id ++ (":parameter" ++ name))));
          overwrite = flag_param ctx "Overwrite";
        })
        else find stores ctx.account_id ctx.region other)
unfolding put_parameter put_parameter_of
put_parameter-find now ctx stores name value other n v =
    let (same, kept) = opened stores ctx.account_id ctx.region in
    rw (n, put_parameter, v)
      (put-find now ctx name value other _ _ (store_of stores ctx.account_id ctx.region) same kept)

-- DeleteParameter with a name: the tenant has none under the name, and finds under any other name
-- what it found before.
pub delete_parameter-find :
    (ctx : RequestContext) (stores : Stores) (name other : String)
    → str_param ctx "Name" ≡ some name
    → find (delete_parameter ctx stores).0 ctx.account_id ctx.region other
      ≡ (if name == other then none else find stores ctx.account_id ctx.region other)
unfolding delete_parameter
delete_parameter-find ctx stores name other n =
    rw (n, delete_parameter, store_of-write, (opened stores ctx.account_id ctx.region).0)
      (get-remove name other (store_of stores ctx.account_id ctx.region).parameters)

-- GetParameter with a name answers with the parameter that the tenant has under it, or with an error.
pub get_parameter-find :
    (ctx : RequestContext) (stores : Stores) (name : String)
    → str_param ctx "Name" ≡ some name
    → get_parameter ctx stores ≡ (
      stores,
      elim (find stores ctx.account_id ctx.region name) [
        | none ↦ not_found name "."
        | some p ↦ json_ok (object (("Parameter", param_to_json p) ∷ []))
      ],
    )
unfolding get_parameter
get_parameter-find ctx stores name n = elim (Option-cases (get stores ctx.account_id ctx.region)) [
  | inl missing ↦ rw (n, get_parameter, missing)
  | inr (s, here) ↦ elim (Option-cases (map_get name s.parameters)) [
    | inl missing ↦ rw (n, get_parameter, here, missing)
    | inr (p, found) ↦ rw (n, get_parameter, here, found)
  ]
]

-- After an accepted PutParameter a GetParameter of the same tenant and name answers with the name and
-- the value that were put, with the type, the time and the ARN of the put, and with 1 as the version,
-- or one past that of the parameter that stood under the name, modulo 2 ^ 64.
pub put_parameter-get_parameter :
    (now : ℕ) (ctx read : RequestContext) (stores : Stores) (name value : String)
    → str_param ctx "Name" ≡ some name
    → str_param ctx "Value" ≡ some value
    → accepted ctx (find stores ctx.account_id ctx.region name) ≡ true
    → str_param read "Name" ≡ some name
    → read.account_id ≡ ctx.account_id
    → read.region ≡ ctx.region
    → let answer = (get_parameter read (put_parameter now ctx stores).0).1 in
      (answer.status_code ≡ 200)
      × (answer.body
          ≡ json (
              object (
                (
                  "Parameter",
                  object (
                      ("Name", str name)
                      ∷ (
                        "Type",
                        str (
                            Store.as_str
                              (Store.from_str (unwrap_or (str_param ctx "Type") "String"))),
                      )
                      ∷ ("Value", str value)
                      ∷ (
                        "Version",
                        signed (next_version (find stores ctx.account_id ctx.region name)),
                      )
                      ∷ ("LastModifiedDate", num (now / 1000000000))
                      ∷ (
                        "ARN",
                        str (
                            "arn:aws:ssm:"
                            ++ (ctx.region ++ (":" ++ (ctx.account_id ++ (":parameter" ++ name))))),
                      )
                      ∷ ("DataType", str "text")
                      ∷ []),
                )
                ∷ [])))
unfolding param_to_json json_ok
put_parameter-get_parameter now ctx read stores name value n v ok' rn same_account same_region =
    let e = put_parameter-find now ctx stores name value name n v in
    let e' = rw (ok', eq_refl name) at e in
    let answered : (get_parameter read (put_parameter now ctx stores).0).1
        ≡ elim (find (put_parameter now ctx stores).0 ctx.account_id ctx.region name) [
          | none ↦ not_found name "."
          | some p ↦ json_ok (object (("Parameter", param_to_json p) ∷ []))
        ] =
      rw
        (
          get_parameter-find read (put_parameter now ctx stores).0 name rn,
          same_account,
          same_region,
        )
        refl in
    let got = rw e' at answered in (ap (λ r. r.status_code) got, ap (λ r. r.body) got)

-- Some name of the list is this one.
abbrev pub mentions : String → List String → Bool
mentions n names = any (λ m. m == n) names

delete_all-cons :
    (ps : Dict Parameter) (m : String) (ms : List String)
    → (delete_all ps (m ∷ ms)).parameters ≡ (delete_all (remove m ps) ms).parameters
unfolding delete_all
delete_all-cons ps m ms = ground arith

delete_all-get :
    (ps : Dict Parameter) (names : List String) (n : String)
    → map_get n (delete_all ps names).parameters ≡ (if mentions n names then none else map_get n ps)
delete_all-get ps [] n = unfold delete_all in refl
delete_all-get ps (m ∷ ms) n =
    rw (delete_all-cons ps m ms, delete_all-get (remove m ps) ms n, get-remove m n ps)
      (ground arith)

delete_all-deleted :
    (ps : Dict Parameter) (names : List String) (n : String)
    → mentions n (delete_all ps names).deleted ≡ (mentions n names && is_some (map_get n ps))
unfolding delete_all
delete_all-deleted ps [] n = refl
delete_all-deleted ps (m ∷ ms) n =
    ground (arith, delete_all-deleted (remove m ps) ms n, get-remove m n ps, eq_iff m n)

-- DeleteParameters: the tenant has none under the names of the request, and finds under any other
-- name what it found before; the loop reports as deleted exactly the names of the request that were
-- there.
pub delete_parameters-find :
    (ctx : RequestContext) (stores : Stores) (name : String)
    → (find (delete_parameters ctx stores).0 ctx.account_id ctx.region name ≡ (
        if mentions name (texts (names_param ctx))
        then none
        else find stores ctx.account_id ctx.region name))
      × (mentions name
            (delete_all
              (store_of stores ctx.account_id ctx.region).parameters
              (texts (names_param ctx))).deleted
          ≡ (mentions name (texts (names_param ctx))
              && is_some (find stores ctx.account_id ctx.region name)))
unfolding delete_parameters
delete_parameters-find ctx stores name = (
  rw (store_of-write, (opened stores ctx.account_id ctx.region).0)
      (delete_all-get (store_of stores ctx.account_id ctx.region).parameters
        (texts (names_param ctx)) name),
  delete_all-deleted _ (texts (names_param ctx)) name,
)
