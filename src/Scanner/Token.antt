-- ===== src/Scanner/Token.antt =====
-- vm/parser_tokens.h: the tokens, in the order of their numbers.
pub data Token : Type 0 where
  and op0 lt cast nequal op1 pipe op2 not dot dcolon dot_dollar lsb nl semi eof comma class end id
        trait def equal lp rp square self num nil true false ivar litstr rsb tuple_start list
        dict_start rb lb if_ else_ return raise unless while import dot_name as_ try rescue op2_set
        op1_set op0_set :
      Token
