-- ===== src/Rewards/Table/Late.antt =====
-- The table of src/rewards_formulas.rs, its second half: the rows of the array in their order.
use pchain_runtime.Prelude.{ℕ, List, [], ◌∷◌}

unfoldable pub factors_5 : List ℕ
factors_5 =
    4409 ∷ 4408 ∷ 4406 ∷ 4404 ∷ 4402 ∷ 4400 ∷ 4398 ∷ 4396 ∷ 4394 ∷ 4392 ∷ 4390 ∷ 4388 ∷ 4386 ∷ 4384
    ∷ 4382 ∷ 4380 ∷ 4378 ∷ 4376 ∷ 4374 ∷ 4372 ∷ 4370 ∷ 4368 ∷ 4366 ∷ 4365 ∷ 4363 ∷ 4361 ∷ 4359
    ∷ 4357 ∷ 4355 ∷ 4353 ∷ 4351 ∷ 4349 ∷ 4347 ∷ 4345 ∷ 4343 ∷ 4341 ∷ 4339 ∷ 4337 ∷ 4336 ∷ 4334
    ∷ 4332 ∷ 4330 ∷ 4328 ∷ 4326 ∷ 4324 ∷ 4322 ∷ 4320 ∷ 4318 ∷ 4316 ∷ 4314 ∷ 4312 ∷ 4310 ∷ 4309
    ∷ 4307 ∷ 4305 ∷ 4303 ∷ 4301 ∷ 4299 ∷ 4297 ∷ 4295 ∷ 4293 ∷ 4291 ∷ 4289 ∷ 4288 ∷ 4286 ∷ 4284
    ∷ 4282 ∷ 4280 ∷ 4278 ∷ 4276 ∷ 4274 ∷ 4272 ∷ 4270 ∷ 4268 ∷ 4267 ∷ 4265 ∷ 4263 ∷ 4261 ∷ 4259
    ∷ 4257 ∷ 4255 ∷ 4253 ∷ 4251 ∷ 4249 ∷ 4248 ∷ 4246 ∷ 4244 ∷ 4242 ∷ 4240 ∷ 4238 ∷ 4236 ∷ 4234
    ∷ 4233 ∷ 4231 ∷ 4229 ∷ 4227 ∷ 4225 ∷ 4223 ∷ 4221 ∷ 4219 ∷ 4217 ∷ 4216 ∷ 4214 ∷ 4212 ∷ 4210
    ∷ 4208 ∷ 4206 ∷ 4204 ∷ 4202 ∷ 4201 ∷ 4199 ∷ 4197 ∷ 4195 ∷ 4193 ∷ 4191 ∷ 4189 ∷ 4188 ∷ 4186
    ∷ 4184 ∷ 4182 ∷ 4180 ∷ 4178 ∷ 4176 ∷ 4174 ∷ 4173 ∷ 4171 ∷ 4169 ∷ 4167 ∷ 4165 ∷ 4163 ∷ 4161
    ∷ 4160 ∷ 4158 ∷ 4156 ∷ 4154 ∷ 4152 ∷ 4150 ∷ 4149 ∷ 4147 ∷ 4145 ∷ 4143 ∷ 4141 ∷ 4139 ∷ 4137
    ∷ 4136 ∷ 4134 ∷ 4132 ∷ 4130 ∷ 4128 ∷ 4126 ∷ 4125 ∷ 4123 ∷ 4121 ∷ 4119 ∷ 4117 ∷ 4115 ∷ 4114
    ∷ 4112 ∷ 4110 ∷ 4108 ∷ 4106 ∷ 4104 ∷ 4103 ∷ 4101 ∷ 4099 ∷ 4097 ∷ 4095 ∷ 4093 ∷ 4092 ∷ 4090
    ∷ 4088 ∷ 4086 ∷ 4084 ∷ 4083 ∷ 4081 ∷ 4079 ∷ 4077 ∷ 4075 ∷ 4073 ∷ 4072 ∷ 4070 ∷ 4068 ∷ 4066
    ∷ 4064 ∷ 4063 ∷ 4061 ∷ 4059 ∷ 4057 ∷ 4055 ∷ 4054 ∷ 4052 ∷ 4050 ∷ 4048 ∷ 4046 ∷ 4045 ∷ 4043
    ∷ 4041 ∷ 4039 ∷ 4037 ∷ 4036 ∷ 4034 ∷ 4032 ∷ 4030 ∷ 4028 ∷ 4027 ∷ 4025 ∷ 4023 ∷ 4021 ∷ 4019
    ∷ 4018 ∷ 4016 ∷ 4014 ∷ 4012 ∷ 4011 ∷ 4009 ∷ 4007 ∷ 4005 ∷ 4003 ∷ 4002 ∷ 4000 ∷ 3998 ∷ 3996
    ∷ 3994 ∷ 3993 ∷ 3991 ∷ 3989 ∷ 3987 ∷ 3986 ∷ 3984 ∷ 3982 ∷ 3980 ∷ 3978 ∷ 3977 ∷ 3975 ∷ 3973
    ∷ 3971 ∷ 3970 ∷ 3968 ∷ 3966 ∷ 3964 ∷ 3963 ∷ 3961 ∷ 3959 ∷ 3957 ∷ 3956 ∷ 3954 ∷ 3952 ∷ 3950
    ∷ 3948 ∷ 3947 ∷ 3945 ∷ 3943 ∷ 3941 ∷ 3940 ∷ 3938 ∷ 3936 ∷ 3934 ∷ 3933 ∷ 3931 ∷ 3929 ∷ 3927
    ∷ 3926 ∷ 3924 ∷ 3922 ∷ 3920 ∷ 3919 ∷ 3917 ∷ 3915 ∷ 3913 ∷ 3912 ∷ 3910 ∷ 3908 ∷ 3907 ∷ 3905
    ∷ 3903 ∷ 3901 ∷ 3900 ∷ 3898 ∷ 3896 ∷ 3894 ∷ 3893 ∷ 3891 ∷ 3889 ∷ 3887 ∷ 3886 ∷ 3884 ∷ 3882
    ∷ 3881 ∷ 3879 ∷ 3877 ∷ 3875 ∷ 3874 ∷ 3872 ∷ 3870 ∷ 3868 ∷ 3867 ∷ 3865 ∷ 3863 ∷ 3862 ∷ 3860
    ∷ 3858 ∷ 3856 ∷ 3855 ∷ 3853 ∷ 3851 ∷ 3850 ∷ 3848 ∷ 3846 ∷ 3844 ∷ 3843 ∷ 3841 ∷ 3839 ∷ 3838
    ∷ 3836 ∷ 3834 ∷ 3832 ∷ 3831 ∷ 3829 ∷ 3827 ∷ 3826 ∷ 3824 ∷ 3822 ∷ 3821 ∷ 3819 ∷ 3817 ∷ 3815
    ∷ 3814 ∷ 3812 ∷ 3810 ∷ 3809 ∷ 3807 ∷ 3805 ∷ 3804 ∷ 3802 ∷ 3800 ∷ 3798 ∷ 3797 ∷ 3795 ∷ 3793
    ∷ 3792 ∷ 3790 ∷ 3788 ∷ 3787 ∷ 3785 ∷ 3783 ∷ 3782 ∷ 3780 ∷ 3778 ∷ 3777 ∷ 3775 ∷ 3773 ∷ 3771
    ∷ 3770 ∷ 3768 ∷ 3766 ∷ 3765 ∷ 3763 ∷ 3761 ∷ 3760 ∷ 3758 ∷ 3756 ∷ 3755 ∷ 3753 ∷ 3751 ∷ 3750
    ∷ 3748 ∷ 3746 ∷ 3745 ∷ []

unfoldable pub factors_6 : List ℕ
factors_6 =
    3743 ∷ 3741 ∷ 3740 ∷ 3738 ∷ 3736 ∷ 3735 ∷ 3733 ∷ 3731 ∷ 3730 ∷ 3728 ∷ 3726 ∷ 3725 ∷ 3723 ∷ 3721
    ∷ 3720 ∷ 3718 ∷ 3716 ∷ 3715 ∷ 3713 ∷ 3712 ∷ 3710 ∷ 3708 ∷ 3707 ∷ 3705 ∷ 3703 ∷ 3702 ∷ 3700
    ∷ 3698 ∷ 3697 ∷ 3695 ∷ 3693 ∷ 3692 ∷ 3690 ∷ 3688 ∷ 3687 ∷ 3685 ∷ 3684 ∷ 3682 ∷ 3680 ∷ 3679
    ∷ 3677 ∷ 3675 ∷ 3674 ∷ 3672 ∷ 3670 ∷ 3669 ∷ 3667 ∷ 3666 ∷ 3664 ∷ 3662 ∷ 3661 ∷ 3659 ∷ 3657
    ∷ 3656 ∷ 3654 ∷ 3653 ∷ 3651 ∷ 3649 ∷ 3648 ∷ 3646 ∷ 3644 ∷ 3643 ∷ 3641 ∷ 3640 ∷ 3638 ∷ 3636
    ∷ 3635 ∷ 3633 ∷ 3631 ∷ 3630 ∷ 3628 ∷ 3627 ∷ 3625 ∷ 3623 ∷ 3622 ∷ 3620 ∷ 3619 ∷ 3617 ∷ 3615
    ∷ 3614 ∷ 3612 ∷ 3610 ∷ 3609 ∷ 3607 ∷ 3606 ∷ 3604 ∷ 3602 ∷ 3601 ∷ 3599 ∷ 3598 ∷ 3596 ∷ 3594
    ∷ 3593 ∷ 3591 ∷ 3590 ∷ 3588 ∷ 3586 ∷ 3585 ∷ 3583 ∷ 3582 ∷ 3580 ∷ 3578 ∷ 3577 ∷ 3575 ∷ 3574
    ∷ 3572 ∷ 3570 ∷ 3569 ∷ 3567 ∷ 3566 ∷ 3564 ∷ 3563 ∷ 3561 ∷ 3559 ∷ 3558 ∷ 3556 ∷ 3555 ∷ 3553
    ∷ 3551 ∷ 3550 ∷ 3548 ∷ 3547 ∷ 3545 ∷ 3544 ∷ 3542 ∷ 3540 ∷ 3539 ∷ 3537 ∷ 3536 ∷ 3534 ∷ 3533
    ∷ 3531 ∷ 3529 ∷ 3528 ∷ 3526 ∷ 3525 ∷ 3523 ∷ 3522 ∷ 3520 ∷ 3518 ∷ 3517 ∷ 3515 ∷ 3514 ∷ 3512
    ∷ 3511 ∷ 3509 ∷ 3507 ∷ 3506 ∷ 3504 ∷ 3503 ∷ 3501 ∷ 3500 ∷ 3498 ∷ 3497 ∷ 3495 ∷ 3493 ∷ 3492
    ∷ 3490 ∷ 3489 ∷ 3487 ∷ 3486 ∷ 3484 ∷ 3483 ∷ 3481 ∷ 3479 ∷ 3478 ∷ 3476 ∷ 3475 ∷ 3473 ∷ 3472
    ∷ 3470 ∷ 3469 ∷ 3467 ∷ 3466 ∷ 3464 ∷ 3462 ∷ 3461 ∷ 3459 ∷ 3458 ∷ 3456 ∷ 3455 ∷ 3453 ∷ 3452
    ∷ 3450 ∷ 3449 ∷ 3447 ∷ 3446 ∷ 3444 ∷ 3442 ∷ 3441 ∷ 3439 ∷ 3438 ∷ 3436 ∷ 3435 ∷ 3433 ∷ 3432
    ∷ 3430 ∷ 3429 ∷ 3427 ∷ 3426 ∷ 3424 ∷ 3423 ∷ 3421 ∷ 3420 ∷ 3418 ∷ 3417 ∷ 3415 ∷ 3413 ∷ 3412
    ∷ 3410 ∷ 3409 ∷ 3407 ∷ 3406 ∷ 3404 ∷ 3403 ∷ 3401 ∷ 3400 ∷ 3398 ∷ 3397 ∷ 3395 ∷ 3394 ∷ 3392
    ∷ 3391 ∷ 3389 ∷ 3388 ∷ 3386 ∷ 3385 ∷ 3383 ∷ 3382 ∷ 3380 ∷ 3379 ∷ 3377 ∷ 3376 ∷ 3374 ∷ 3373
    ∷ 3371 ∷ 3370 ∷ 3368 ∷ 3367 ∷ 3365 ∷ 3364 ∷ 3362 ∷ 3361 ∷ 3359 ∷ 3358 ∷ 3356 ∷ 3355 ∷ 3353
    ∷ 3352 ∷ 3350 ∷ 3349 ∷ 3347 ∷ 3346 ∷ 3344 ∷ 3343 ∷ 3341 ∷ 3340 ∷ 3338 ∷ 3337 ∷ 3335 ∷ 3334
    ∷ 3332 ∷ 3331 ∷ 3329 ∷ 3328 ∷ 3326 ∷ 3325 ∷ 3323 ∷ 3322 ∷ 3321 ∷ 3319 ∷ 3318 ∷ 3316 ∷ 3315
    ∷ 3313 ∷ 3312 ∷ 3310 ∷ 3309 ∷ 3307 ∷ 3306 ∷ 3304 ∷ 3303 ∷ 3301 ∷ 3300 ∷ 3298 ∷ 3297 ∷ 3296
    ∷ 3294 ∷ 3293 ∷ 3291 ∷ 3290 ∷ 3288 ∷ 3287 ∷ 3285 ∷ 3284 ∷ 3282 ∷ 3281 ∷ 3279 ∷ 3278 ∷ 3276
    ∷ 3275 ∷ 3274 ∷ 3272 ∷ 3271 ∷ 3269 ∷ 3268 ∷ 3266 ∷ 3265 ∷ 3263 ∷ 3262 ∷ 3260 ∷ 3259 ∷ 3258
    ∷ 3256 ∷ 3255 ∷ 3253 ∷ 3252 ∷ 3250 ∷ 3249 ∷ 3247 ∷ 3246 ∷ 3245 ∷ 3243 ∷ 3242 ∷ 3240 ∷ 3239
    ∷ 3237 ∷ 3236 ∷ 3234 ∷ 3233 ∷ 3232 ∷ 3230 ∷ 3229 ∷ 3227 ∷ 3226 ∷ 3224 ∷ 3223 ∷ 3222 ∷ 3220
    ∷ 3219 ∷ 3217 ∷ 3216 ∷ 3214 ∷ 3213 ∷ 3211 ∷ 3210 ∷ 3209 ∷ 3207 ∷ 3206 ∷ 3204 ∷ 3203 ∷ 3201
    ∷ 3200 ∷ 3199 ∷ 3197 ∷ 3196 ∷ 3194 ∷ 3193 ∷ 3192 ∷ 3190 ∷ 3189 ∷ 3187 ∷ 3186 ∷ 3184 ∷ 3183
    ∷ 3182 ∷ 3180 ∷ 3179 ∷ []

unfoldable pub factors_7 : List ℕ
factors_7 =
    3177 ∷ 3176 ∷ 3175 ∷ 3173 ∷ 3172 ∷ 3170 ∷ 3169 ∷ 3167 ∷ 3166 ∷ 3165 ∷ 3163 ∷ 3162 ∷ 3160 ∷ 3159
    ∷ 3158 ∷ 3156 ∷ 3155 ∷ 3153 ∷ 3152 ∷ 3151 ∷ 3149 ∷ 3148 ∷ 3146 ∷ 3145 ∷ 3144 ∷ 3142 ∷ 3141
    ∷ 3139 ∷ 3138 ∷ 3137 ∷ 3135 ∷ 3134 ∷ 3132 ∷ 3131 ∷ 3130 ∷ 3128 ∷ 3127 ∷ 3125 ∷ 3124 ∷ 3123
    ∷ 3121 ∷ 3120 ∷ 3118 ∷ 3117 ∷ 3116 ∷ 3114 ∷ 3113 ∷ 3112 ∷ 3110 ∷ 3109 ∷ 3107 ∷ 3106 ∷ 3105
    ∷ 3103 ∷ 3102 ∷ 3100 ∷ 3099 ∷ 3098 ∷ 3096 ∷ 3095 ∷ 3094 ∷ 3092 ∷ 3091 ∷ 3089 ∷ 3088 ∷ 3087
    ∷ 3085 ∷ 3084 ∷ 3083 ∷ 3081 ∷ 3080 ∷ 3078 ∷ 3077 ∷ 3076 ∷ 3074 ∷ 3073 ∷ 3072 ∷ 3070 ∷ 3069
    ∷ 3068 ∷ 3066 ∷ 3065 ∷ 3063 ∷ 3062 ∷ 3061 ∷ 3059 ∷ 3058 ∷ 3057 ∷ 3055 ∷ 3054 ∷ 3053 ∷ 3051
    ∷ 3050 ∷ 3048 ∷ 3047 ∷ 3046 ∷ 3044 ∷ 3043 ∷ 3042 ∷ 3040 ∷ 3039 ∷ 3038 ∷ 3036 ∷ 3035 ∷ 3034
    ∷ 3032 ∷ 3031 ∷ 3030 ∷ 3028 ∷ 3027 ∷ 3025 ∷ 3024 ∷ 3023 ∷ 3021 ∷ 3020 ∷ 3019 ∷ 3017 ∷ 3016
    ∷ 3015 ∷ 3013 ∷ 3012 ∷ 3011 ∷ 3009 ∷ 3008 ∷ 3007 ∷ 3005 ∷ 3004 ∷ 3003 ∷ 3001 ∷ 3000 ∷ 2999
    ∷ 2997 ∷ 2996 ∷ 2995 ∷ 2993 ∷ 2992 ∷ 2991 ∷ 2989 ∷ 2988 ∷ 2987 ∷ 2985 ∷ 2984 ∷ 2983 ∷ 2981
    ∷ 2980 ∷ 2979 ∷ 2977 ∷ 2976 ∷ 2975 ∷ 2973 ∷ 2972 ∷ 2971 ∷ 2969 ∷ 2968 ∷ 2967 ∷ 2965 ∷ 2964
    ∷ 2963 ∷ 2962 ∷ 2960 ∷ 2959 ∷ 2958 ∷ 2956 ∷ 2955 ∷ 2954 ∷ 2952 ∷ 2951 ∷ 2950 ∷ 2948 ∷ 2947
    ∷ 2946 ∷ 2944 ∷ 2943 ∷ 2942 ∷ 2940 ∷ 2939 ∷ 2938 ∷ 2937 ∷ 2935 ∷ 2934 ∷ 2933 ∷ 2931 ∷ 2930
    ∷ 2929 ∷ 2927 ∷ 2926 ∷ 2925 ∷ 2924 ∷ 2922 ∷ 2921 ∷ 2920 ∷ 2918 ∷ 2917 ∷ 2916 ∷ 2914 ∷ 2913
    ∷ 2912 ∷ 2911 ∷ 2909 ∷ 2908 ∷ 2907 ∷ 2905 ∷ 2904 ∷ 2903 ∷ 2901 ∷ 2900 ∷ 2899 ∷ 2898 ∷ 2896
    ∷ 2895 ∷ 2894 ∷ 2892 ∷ 2891 ∷ 2890 ∷ 2889 ∷ 2887 ∷ 2886 ∷ 2885 ∷ 2883 ∷ 2882 ∷ 2881 ∷ 2880
    ∷ 2878 ∷ 2877 ∷ 2876 ∷ 2874 ∷ 2873 ∷ 2872 ∷ 2871 ∷ 2869 ∷ 2868 ∷ 2867 ∷ 2866 ∷ 2864 ∷ 2863
    ∷ 2862 ∷ 2860 ∷ 2859 ∷ 2858 ∷ 2857 ∷ 2855 ∷ 2854 ∷ 2853 ∷ 2852 ∷ 2850 ∷ 2849 ∷ 2848 ∷ 2846
    ∷ 2845 ∷ 2844 ∷ 2843 ∷ 2841 ∷ 2840 ∷ 2839 ∷ 2838 ∷ 2836 ∷ 2835 ∷ 2834 ∷ 2833 ∷ 2831 ∷ 2830
    ∷ 2829 ∷ 2827 ∷ 2826 ∷ 2825 ∷ 2824 ∷ 2822 ∷ 2821 ∷ 2820 ∷ 2819 ∷ 2817 ∷ 2816 ∷ 2815 ∷ 2814
    ∷ 2812 ∷ 2811 ∷ 2810 ∷ 2809 ∷ 2807 ∷ 2806 ∷ 2805 ∷ 2804 ∷ 2802 ∷ 2801 ∷ 2800 ∷ 2799 ∷ 2797
    ∷ 2796 ∷ 2795 ∷ 2794 ∷ 2792 ∷ 2791 ∷ 2790 ∷ 2789 ∷ 2787 ∷ 2786 ∷ 2785 ∷ 2784 ∷ 2783 ∷ 2781
    ∷ 2780 ∷ 2779 ∷ 2778 ∷ 2776 ∷ 2775 ∷ 2774 ∷ 2773 ∷ 2771 ∷ 2770 ∷ 2769 ∷ 2768 ∷ 2766 ∷ 2765
    ∷ 2764 ∷ 2763 ∷ 2762 ∷ 2760 ∷ 2759 ∷ 2758 ∷ 2757 ∷ 2755 ∷ 2754 ∷ 2753 ∷ 2752 ∷ 2751 ∷ 2749
    ∷ 2748 ∷ 2747 ∷ 2746 ∷ 2744 ∷ 2743 ∷ 2742 ∷ 2741 ∷ 2740 ∷ 2738 ∷ 2737 ∷ 2736 ∷ 2735 ∷ 2733
    ∷ 2732 ∷ 2731 ∷ 2730 ∷ 2729 ∷ 2727 ∷ 2726 ∷ 2725 ∷ 2724 ∷ 2722 ∷ 2721 ∷ 2720 ∷ 2719 ∷ 2718
    ∷ 2716 ∷ 2715 ∷ 2714 ∷ 2713 ∷ 2712 ∷ 2710 ∷ 2709 ∷ 2708 ∷ 2707 ∷ 2706 ∷ 2704 ∷ 2703 ∷ 2702
    ∷ 2701 ∷ 2700 ∷ 2698 ∷ []

unfoldable pub factors_8 : List ℕ
factors_8 =
    2697 ∷ 2696 ∷ 2695 ∷ 2694 ∷ 2692 ∷ 2691 ∷ 2690 ∷ 2689 ∷ 2688 ∷ 2686 ∷ 2685 ∷ 2684 ∷ 2683 ∷ 2682
    ∷ 2680 ∷ 2679 ∷ 2678 ∷ 2677 ∷ 2676 ∷ 2674 ∷ 2673 ∷ 2672 ∷ 2671 ∷ 2670 ∷ 2668 ∷ 2667 ∷ 2666
    ∷ 2665 ∷ 2664 ∷ 2663 ∷ 2661 ∷ 2660 ∷ 2659 ∷ 2658 ∷ 2657 ∷ 2655 ∷ 2654 ∷ 2653 ∷ 2652 ∷ 2651
    ∷ 2650 ∷ 2648 ∷ 2647 ∷ 2646 ∷ 2645 ∷ 2644 ∷ 2642 ∷ 2641 ∷ 2640 ∷ 2639 ∷ 2638 ∷ 2637 ∷ 2635
    ∷ 2634 ∷ 2633 ∷ 2632 ∷ 2631 ∷ 2630 ∷ 2628 ∷ 2627 ∷ 2626 ∷ 2625 ∷ 2624 ∷ 2623 ∷ 2621 ∷ 2620
    ∷ 2619 ∷ 2618 ∷ 2617 ∷ 2616 ∷ 2614 ∷ 2613 ∷ 2612 ∷ 2611 ∷ 2610 ∷ 2609 ∷ 2607 ∷ 2606 ∷ 2605
    ∷ 2604 ∷ 2603 ∷ 2602 ∷ 2600 ∷ 2599 ∷ 2598 ∷ 2597 ∷ 2596 ∷ 2595 ∷ 2594 ∷ 2592 ∷ 2591 ∷ 2590
    ∷ 2589 ∷ 2588 ∷ 2587 ∷ 2585 ∷ 2584 ∷ 2583 ∷ 2582 ∷ 2581 ∷ 2580 ∷ 2579 ∷ 2577 ∷ 2576 ∷ 2575
    ∷ 2574 ∷ 2573 ∷ 2572 ∷ 2571 ∷ 2569 ∷ 2568 ∷ 2567 ∷ 2566 ∷ 2565 ∷ 2564 ∷ 2563 ∷ 2561 ∷ 2560
    ∷ 2559 ∷ 2558 ∷ 2557 ∷ 2556 ∷ 2555 ∷ 2553 ∷ 2552 ∷ 2551 ∷ 2550 ∷ 2549 ∷ 2548 ∷ 2547 ∷ 2545
    ∷ 2544 ∷ 2543 ∷ 2542 ∷ 2541 ∷ 2540 ∷ 2539 ∷ 2538 ∷ 2536 ∷ 2535 ∷ 2534 ∷ 2533 ∷ 2532 ∷ 2531
    ∷ 2530 ∷ 2529 ∷ 2527 ∷ 2526 ∷ 2525 ∷ 2524 ∷ 2523 ∷ 2522 ∷ 2521 ∷ 2520 ∷ 2518 ∷ 2517 ∷ 2516
    ∷ 2515 ∷ 2514 ∷ 2513 ∷ 2512 ∷ 2511 ∷ 2509 ∷ 2508 ∷ 2507 ∷ 2506 ∷ 2505 ∷ 2504 ∷ 2503 ∷ 2502
    ∷ 2501 ∷ 2499 ∷ 2498 ∷ 2497 ∷ 2496 ∷ 2495 ∷ 2494 ∷ 2493 ∷ 2492 ∷ 2491 ∷ 2489 ∷ 2488 ∷ 2487
    ∷ 2486 ∷ 2485 ∷ 2484 ∷ 2483 ∷ 2482 ∷ 2481 ∷ 2479 ∷ 2478 ∷ 2477 ∷ 2476 ∷ 2475 ∷ 2474 ∷ 2473
    ∷ 2472 ∷ 2471 ∷ 2470 ∷ 2468 ∷ 2467 ∷ 2466 ∷ 2465 ∷ 2464 ∷ 2463 ∷ 2462 ∷ 2461 ∷ 2460 ∷ 2459
    ∷ 2457 ∷ 2456 ∷ 2455 ∷ 2454 ∷ 2453 ∷ 2452 ∷ 2451 ∷ 2450 ∷ 2449 ∷ 2448 ∷ 2447 ∷ 2445 ∷ 2444
    ∷ 2443 ∷ 2442 ∷ 2441 ∷ 2440 ∷ 2439 ∷ 2438 ∷ 2437 ∷ 2436 ∷ 2435 ∷ 2434 ∷ 2432 ∷ 2431 ∷ 2430
    ∷ 2429 ∷ 2428 ∷ 2427 ∷ 2426 ∷ 2425 ∷ 2424 ∷ 2423 ∷ 2422 ∷ 2421 ∷ 2419 ∷ 2418 ∷ 2417 ∷ 2416
    ∷ 2415 ∷ 2414 ∷ 2413 ∷ 2412 ∷ 2411 ∷ 2410 ∷ 2409 ∷ 2408 ∷ 2407 ∷ 2406 ∷ 2404 ∷ 2403 ∷ 2402
    ∷ 2401 ∷ 2400 ∷ 2399 ∷ 2398 ∷ 2397 ∷ 2396 ∷ 2395 ∷ 2394 ∷ 2393 ∷ 2392 ∷ 2391 ∷ 2389 ∷ 2388
    ∷ 2387 ∷ 2386 ∷ 2385 ∷ 2384 ∷ 2383 ∷ 2382 ∷ 2381 ∷ 2380 ∷ 2379 ∷ 2378 ∷ 2377 ∷ 2376 ∷ 2375
    ∷ 2374 ∷ 2373 ∷ 2371 ∷ 2370 ∷ 2369 ∷ 2368 ∷ 2367 ∷ 2366 ∷ 2365 ∷ 2364 ∷ 2363 ∷ 2362 ∷ 2361
    ∷ 2360 ∷ 2359 ∷ 2358 ∷ 2357 ∷ 2356 ∷ 2355 ∷ 2354 ∷ 2353 ∷ 2352 ∷ 2350 ∷ 2349 ∷ 2348 ∷ 2347
    ∷ 2346 ∷ 2345 ∷ 2344 ∷ 2343 ∷ 2342 ∷ 2341 ∷ 2340 ∷ 2339 ∷ 2338 ∷ 2337 ∷ 2336 ∷ 2335 ∷ 2334
    ∷ 2333 ∷ 2332 ∷ 2331 ∷ 2330 ∷ 2329 ∷ 2328 ∷ 2327 ∷ 2325 ∷ 2324 ∷ 2323 ∷ 2322 ∷ 2321 ∷ 2320
    ∷ 2319 ∷ 2318 ∷ 2317 ∷ 2316 ∷ 2315 ∷ 2314 ∷ 2313 ∷ 2312 ∷ 2311 ∷ 2310 ∷ 2309 ∷ 2308 ∷ 2307
    ∷ 2306 ∷ 2305 ∷ 2304 ∷ 2303 ∷ 2302 ∷ 2301 ∷ 2300 ∷ 2299 ∷ 2298 ∷ 2297 ∷ 2296 ∷ 2295 ∷ 2294
    ∷ 2293 ∷ 2292 ∷ 2291 ∷ []

unfoldable pub factors_9 : List ℕ
factors_9 =
    2290 ∷ 2288 ∷ 2287 ∷ 2286 ∷ 2285 ∷ 2284 ∷ 2283 ∷ 2282 ∷ 2281 ∷ 2280 ∷ 2279 ∷ 2278 ∷ 2277 ∷ 2276
    ∷ 2275 ∷ 2274 ∷ 2273 ∷ 2272 ∷ 2271 ∷ 2270 ∷ 2269 ∷ 2268 ∷ 2267 ∷ 2266 ∷ 2265 ∷ 2264 ∷ 2263
    ∷ 2262 ∷ 2261 ∷ 2260 ∷ 2259 ∷ 2258 ∷ 2257 ∷ 2256 ∷ 2255 ∷ 2254 ∷ 2253 ∷ 2252 ∷ 2251 ∷ 2250
    ∷ 2249 ∷ 2248 ∷ 2247 ∷ 2246 ∷ 2245 ∷ 2244 ∷ 2243 ∷ 2242 ∷ 2241 ∷ 2240 ∷ 2239 ∷ 2238 ∷ 2237
    ∷ 2236 ∷ 2235 ∷ 2234 ∷ 2233 ∷ 2232 ∷ 2231 ∷ 2230 ∷ 2229 ∷ 2228 ∷ 2227 ∷ 2226 ∷ 2225 ∷ 2224
    ∷ 2223 ∷ 2222 ∷ 2221 ∷ 2220 ∷ 2219 ∷ 2218 ∷ 2217 ∷ 2216 ∷ 2215 ∷ 2214 ∷ 2213 ∷ 2212 ∷ 2211
    ∷ 2210 ∷ 2209 ∷ 2208 ∷ 2207 ∷ 2206 ∷ 2205 ∷ 2204 ∷ 2203 ∷ 2203 ∷ 2202 ∷ 2201 ∷ 2200 ∷ 2199
    ∷ 2198 ∷ 2197 ∷ 2196 ∷ 2195 ∷ 2194 ∷ 2193 ∷ 2192 ∷ 2191 ∷ 2190 ∷ 2189 ∷ 2188 ∷ 2187 ∷ 2186
    ∷ 2185 ∷ 2184 ∷ 2183 ∷ 2182 ∷ 2181 ∷ 2180 ∷ 2179 ∷ 2178 ∷ 2177 ∷ 2176 ∷ 2175 ∷ 2174 ∷ 2173
    ∷ 2172 ∷ 2171 ∷ 2170 ∷ 2169 ∷ 2168 ∷ 2167 ∷ 2167 ∷ 2166 ∷ 2165 ∷ 2164 ∷ 2163 ∷ 2162 ∷ 2161
    ∷ 2160 ∷ 2159 ∷ 2158 ∷ 2157 ∷ 2156 ∷ 2155 ∷ 2154 ∷ 2153 ∷ 2152 ∷ 2151 ∷ 2150 ∷ 2149 ∷ 2148
    ∷ 2147 ∷ 2146 ∷ 2145 ∷ 2144 ∷ 2143 ∷ 2143 ∷ 2142 ∷ 2141 ∷ 2140 ∷ 2139 ∷ 2138 ∷ 2137 ∷ 2136
    ∷ 2135 ∷ 2134 ∷ 2133 ∷ 2132 ∷ 2131 ∷ 2130 ∷ 2129 ∷ 2128 ∷ 2127 ∷ 2126 ∷ 2125 ∷ 2124 ∷ 2124
    ∷ 2123 ∷ 2122 ∷ 2121 ∷ 2120 ∷ 2119 ∷ 2118 ∷ 2117 ∷ 2116 ∷ 2115 ∷ 2114 ∷ 2113 ∷ 2112 ∷ 2111
    ∷ 2110 ∷ 2109 ∷ 2108 ∷ 2108 ∷ 2107 ∷ 2106 ∷ 2105 ∷ 2104 ∷ 2103 ∷ 2102 ∷ 2101 ∷ 2100 ∷ 2099
    ∷ 2098 ∷ 2097 ∷ 2096 ∷ 2095 ∷ 2094 ∷ 2094 ∷ 2093 ∷ 2092 ∷ 2091 ∷ 2090 ∷ 2089 ∷ 2088 ∷ 2087
    ∷ 2086 ∷ 2085 ∷ 2084 ∷ 2083 ∷ 2082 ∷ 2081 ∷ 2080 ∷ 2080 ∷ 2079 ∷ 2078 ∷ 2077 ∷ 2076 ∷ 2075
    ∷ 2074 ∷ 2073 ∷ 2072 ∷ 2071 ∷ 2070 ∷ 2069 ∷ 2068 ∷ 2068 ∷ 2067 ∷ 2066 ∷ 2065 ∷ 2064 ∷ 2063
    ∷ 2062 ∷ 2061 ∷ 2060 ∷ 2059 ∷ 2058 ∷ 2057 ∷ 2057 ∷ 2056 ∷ 2055 ∷ 2054 ∷ 2053 ∷ 2052 ∷ 2051
    ∷ 2050 ∷ 2049 ∷ 2048 ∷ 2047 ∷ 2047 ∷ 2046 ∷ 2045 ∷ 2044 ∷ 2043 ∷ 2042 ∷ 2041 ∷ 2040 ∷ 2039
    ∷ 2038 ∷ 2037 ∷ 2037 ∷ 2036 ∷ 2035 ∷ 2034 ∷ 2033 ∷ 2032 ∷ 2031 ∷ 2030 ∷ 2029 ∷ 2028 ∷ 2027
    ∷ 2027 ∷ 2026 ∷ 2025 ∷ 2024 ∷ 2023 ∷ 2022 ∷ 2021 ∷ 2020 ∷ 2019 ∷ 2018 ∷ 2018 ∷ 2017 ∷ 2016
    ∷ 2015 ∷ 2014 ∷ 2013 ∷ 2012 ∷ 2011 ∷ 2010 ∷ 2009 ∷ 2009 ∷ 2008 ∷ 2007 ∷ 2006 ∷ 2005 ∷ 2004
    ∷ 2003 ∷ 2002 ∷ 2001 ∷ 2001 ∷ 2000 ∷ 1999 ∷ 1998 ∷ 1997 ∷ 1996 ∷ 1995 ∷ 1994 ∷ 1993 ∷ 1993
    ∷ 1992 ∷ 1991 ∷ 1990 ∷ 1989 ∷ 1988 ∷ 1987 ∷ 1986 ∷ 1985 ∷ 1985 ∷ 1984 ∷ 1983 ∷ 1982 ∷ 1981
    ∷ 1980 ∷ 1979 ∷ 1978 ∷ 1978 ∷ 1977 ∷ 1976 ∷ 1975 ∷ 1974 ∷ 1973 ∷ 1972 ∷ 1971 ∷ 1970 ∷ 1970 ∷ []
