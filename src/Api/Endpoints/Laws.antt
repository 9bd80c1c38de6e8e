-- ===== src/Api/Endpoints/Laws.antt =====
-- The calls of the API modules, against what `api` refuses.
use build_a_computer.Base.{◌≡◌, refl, ◌≢◌, ◌⊎◌, inl, inr, Option, none, List, [], ◌∷◌, All}
use build_a_computer.Base.Strings.{JsString}
use build_a_computer.Api.{get, head, Request, prepare}
use build_a_computer.Api.Laws.{prepare_sends_iff}
use build_a_computer.Api.Endpoints.{
  Call, create_benchmark, get_benchmark, get_benchmarks, delete_benchmark, filter_benchmarks,
  get_cpus, get_gpus, get_rams, create_game, get_games, update_game, delete_game, create_user,
  get_user, get_users, delete_user, update_user, sign_in, sign_up, forgot_password, reset_password,
  create_hardware_resource_api,
}

-- Every call of the API modules but that for a recommendation, for an id, a payload and the path of a hardware resource.
unfoldable pub calls : {P : Type 0} → JsString → P → JsString → List (Call P)
calls id dto path =
    create_benchmark dto
    ∷ get_benchmark id
    ∷ get_benchmarks
    ∷ delete_benchmark id
    ∷ filter_benchmarks dto
    ∷ get_cpus
    ∷ get_gpus
    ∷ get_rams
    ∷ create_game dto
    ∷ get_games
    ∷ update_game id dto
    ∷ delete_game id
    ∷ create_user dto
    ∷ get_user id
    ∷ get_users
    ∷ delete_user id
    ∷ update_user id dto
    ∷ sign_in dto
    ∷ sign_up dto
    ∷ forgot_password dto
    ∷ reset_password dto
    ∷ (create_hardware_resource_api path).list
    ∷ (create_hardware_resource_api path).create dto
    ∷ (create_hardware_resource_api path).update id dto
    ∷ (create_hardware_resource_api path).remove id
    ∷ []

module _ {P : Type 0} (N : Type 0) (stringify : P → JsString) (host : Option JsString)
    (cookies : JsString) where
  abbrev pub IsSent : Call P → Type 0
  IsSent c =
      (req : Request) × (prepare stringify host cookies {N = N} c.endpoint c.options ≡ inl req)

  sent :
      (c : Call P)
      → (c.options.payload ≡ none) ⊎ ((c.options.method ≢ get) × (c.options.method ≢ head))
      → IsSent c
  sent c = (prepare_sends_iff stringify host cookies {N = N} c.endpoint c.options).1

  -- Every one of these calls becomes a request: `prepare` refuses none of them, whatever the id,
  -- the payload and the path.
  calls_sent : (id : JsString) (dto : P) (path : JsString) → All IsSent (calls id dto path)
  unfolding calls create_hardware_resource_api create_benchmark get_benchmark get_benchmarks
      delete_benchmark filter_benchmarks get_cpus get_gpus get_rams create_game get_games
      update_game delete_game create_user get_user get_users delete_user update_user sign_in sign_up
      forgot_password reset_password
  calls_sent id dto path = (
    sent (create_benchmark dto) (inr (cc, cc)),
    (
      sent (get_benchmark id) (inl refl),
      (
        sent get_benchmarks (inl refl),
        (
          sent (delete_benchmark id) (inl refl),
          (
            sent (filter_benchmarks dto) (inr (cc, cc)),
            (
              sent get_cpus (inl refl),
              (
                sent get_gpus (inl refl),
                (
                  sent get_rams (inl refl),
                  (
                    sent (create_game dto) (inr (cc, cc)),
                    (
                      sent get_games (inl refl),
                      (
                        sent (update_game id dto) (inr (cc, cc)),
                        (
                          sent (delete_game id) (inl refl),
                          (
                            sent (create_user dto) (inr (cc, cc)),
                            (
                              sent (get_user id) (inl refl),
                              (
                                sent get_users (inl refl),
                                (
                                  sent (delete_user id) (inl refl),
                                  (
                                    sent (update_user id dto) (inr (cc, cc)),
                                    (
                                      sent (sign_in dto) (inr (cc, cc)),
                                      (
                                        sent (sign_up dto) (inr (cc, cc)),
                                        (
                                          sent (forgot_password dto) (inr (cc, cc)),
                                          (
                                            sent (reset_password dto) (inr (cc, cc)),
                                            (
                                              sent ((create_hardware_resource_api path).list)
                                                  (inl refl),
                                              (
                                                sent
                                                    ((create_hardware_resource_api path).create dto)
                                                    (inr (cc, cc)),
                                                (
                                                  sent
                                                      ((create_hardware_resource_api path).update id
                                                        dto)
                                                      (inr (cc, cc)),
                                                  (
                                                    sent
                                                        ((create_hardware_resource_api path).remove
                                                          id)
                                                        (inl refl),
                                                    tt,
                                                  ),
                                                ),
                                              ),
                                            ),
                                          ),
                                        ),
                                      ),
                                    ),
                                  ),
                                ),
                              ),
                            ),
                          ),
                        ),
                      ),
                    ),
                  ),
                ),
              ),
            ),
          ),
        ),
      ),
    ),
  )
