-- ===== src/Http/Request/Tests.antt =====
-- A request with a parameter, two headers and a body.
use uv_cpp.Prelude.{◌≡◌, refl, codes, [], ◌∷◌, some, arith}
use uv_cpp.Http.Dict.{less}
use uv_cpp.Http.Common.{success, http1_1, post}
use uv_cpp.Http.Request.{
  Request, default_request, new_request, question, pop_back, pack_params, pack, unpack,
  pack_path_param,
}
use uv_cpp.Http.Request.Url.{IsTarget}
use uv_cpp.Http.Request.Unpack.{IsSendable, unpack-pack}

abbrev order : Request
order = record {
  version = http1_1;
  methon = post;
  path = codes "/buy";
  value = [];
  url_parms = (codes "id", codes "7") ∷ [];
  heads = (codes "Content-Length", codes "3") ∷ (codes "Host", codes "a") ∷ [];
  content = codes "abc";
}

order-IsTarget : IsTarget order
order-IsTarget = record {
  slash = refl;
  path_colon = ground arith;
  path_question = ground arith;
  params_colon = unfold question pop_back pack_params in ground arith;
  params = ground arith;
  sorted = (tt, tt);
}

order-IsSendable : IsSendable order
unfolding less
order-IsSendable = record {
  methon = λ e. cc;
  version = λ e. cc;
  target = order-IsTarget;
  target_space = unfold pack_path_param question pop_back pack_params in ground arith;
  target_cr = unfold pack_path_param question pop_back pack_params in ground arith;
  heads = ground arith;
  sorted = ((refl, tt), (tt, tt));
}

unpack-pack_example : unpack default_request (pack order) ≡ some (success, order)
unfolding new_request
unpack-pack_example = unpack-pack order default_request order-IsSendable refl
